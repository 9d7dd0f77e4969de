-- ===== src/RoundTrip/Fits.antt =====
-- What is read back just as it was written.
use fastavro.Prelude.{ℕ, zero, suc, ◌^◌, ◌<◌, Bool, [], ◌≡◌, none, some, length}
use fastavro.Python.Errors.{Result, ok}
use fastavro.Python.Text.{Text, Bytes}
use fastavro.Datum.{Datum, Items, Entries, list, dict, str, bytes, count_items, count_entries}
use fastavro.Schema.{
  Schema, prim, ref, union, annotated, array, map, fixed, enum, record_schema, extract_logical_type,
  find_schema, get_schema,
}
use fastavro.Context.{WriteContext, WriteOptions}
use fastavro.Validation.{validate}
use fastavro.Write.Values.{index_of}
use fastavro.Write.Unions.{choose_branch}
use fastavro.RoundTrip.Primitives.{FitsPrimitive}
use fastavro.RoundTrip.Containers.{IsDict}
use fastavro.RoundTrip.Collections.{AllItems, AllEntries}
use fastavro.RoundTrip.Records.{AllFields}

-- A datum that a schema holds in just the form in which it is read back, by the schema's type; `fits`
-- is the same of the parts. In a union it fits the branch that the writer chooses.
abbrev pub FitsType :
    (Datum → Schema → Type 0)
    → (Datum → Schema → Result Bool)
    → WriteContext
    → WriteOptions
    → Datum
    → Schema
    → Type 0
FitsType fits valid ctx options d (prim p) = FitsPrimitive p d
FitsType fits valid ctx options d (annotated p a) = FitsPrimitive p d
FitsType fits valid ctx options d (fixed a name aliases size) =
    (b : Bytes) × (d ≡ bytes b) × (length b ≡ size)
FitsType fits valid ctx options d (enum a name aliases symbols default) =
    (t : Text) × (i : ℕ) × (d ≡ str t) × (index_of (str t) symbols ≡ ok i) × (i < 2 ^ 63)
FitsType fits valid ctx options d (array a s) =
    (ds : Items) × (d ≡ list ds) × (count_items ds < 2 ^ 63) × AllItems fits ds s
FitsType fits valid ctx options d (map a s) =
    (es : Entries) × (d ≡ dict es) × (count_entries es < 2 ^ 63) × IsDict es × AllEntries fits es s
FitsType fits valid ctx options d (union ss) =
    (i : ℕ) × (s : Schema) × (choose_branch valid ctx options d ss ≡ ok (i, d))
    × (get_schema ss i ≡ some s)
    × (i < 2 ^ 63)
    × fits d s
FitsType fits valid ctx options d (record_schema a f name aliases fs) =
    (es : Entries) × (d ≡ dict es) × IsDict es × AllFields fits es fs
FitsType fits valid ctx options d (ref name) =
    (s : Schema) × (find_schema name ctx.named_schemas ≡ some s) × fits d s

-- Within a depth of calls, and with no logical type on the way.
abbrev pub Fits : ℕ → WriteContext → WriteOptions → Datum → Schema → Type 0
Fits zero ctx options d s = ⊥
Fits (suc depth) ctx options d s =
    (extract_logical_type s ≡ none)
    × FitsType (Fits depth ctx options) (λ x t. validate depth ctx options Bool.false [] (some x) t)
        ctx options d s
