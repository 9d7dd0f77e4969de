-- ===== src/RoundTrip/Data.antt =====
-- `write_data` against `read_data`: whatever fits its schema comes back.
use fastavro.Prelude.{
  ℕ, zero, suc, ◌^◌, ◌<◌, Bool, List, [], ◌∷◌, ◌++◌, ◌≡◌, refl, ap, sym, subst, none, some, length,
  arith, get_elem?, Bool-cases, inl, inr, take_front, drop_front,
}
use fastavro.Python.Errors.{Result, ok, wrote, output, bind-eq_ok}
use fastavro.Python.Ints.{pos}
use fastavro.Python.Text.{Text, Bytes, eq_text}
use fastavro.Python.Files.{Reader}
use fastavro.Datum.{Datum, str, bytes}
use fastavro.Schema.{
  Schema, Schemas, prim, ref, union, annotated, array, map, fixed, enum, record_schema,
  extract_logical_type, get_schema,
}
use fastavro.Context.{WriteContext, WriteOptions, ReadContext, default_read_options}
use fastavro.Resolution.{match_types}
use fastavro.Validation.{validate, prepare}
use fastavro.Binary.Decoder
use fastavro.Binary.Encoder
use fastavro.Binary.Decoder.{read_index, read_long}
use fastavro.Write.Values.{index_of, write_fixed, write_enum}
use fastavro.Write.Unions.{choose_branch, write_union}
use fastavro.Write.Data.{run_writer, write_data}
use fastavro.Write.Values.{Write}
use fastavro.Read.Values.{Read, Skip, read_fixed, read_enum, resolve_symbol}
use fastavro.Read.Unions.{read_union, reader_branch, label_result}
use fastavro.Read.Data.{run_reader, read_data, skip_data, finish, convert}
use fastavro.RoundTrip.Transmits.{Transmits, transmit_then, transmit_pair, transmit_writer}
use fastavro.RoundTrip.Primitives.{transmit_primitive, transmit_long}
use fastavro.RoundTrip.Containers.{eq_text→eq}
use fastavro.RoundTrip.Collections.{transmit_array, transmit_map}
use fastavro.RoundTrip.Records.{transmit_record}
use fastavro.RoundTrip.Fits.{FitsType, Fits}

prepare-plain :
    (ctx : WriteContext) (d : Datum) (s : Schema)
    → extract_logical_type s ≡ none
    → prepare ctx.logical_writers d s ≡ ok d
unfolding prepare
prepare-plain ctx d s e = rw (e, prepare)

convert-plain :
    (ctx : ReadContext) (d : Datum) (s : Schema)
    → extract_logical_type s ≡ none
    → convert ctx s none d ≡ ok d
unfolding convert
convert-plain ctx d s e = rw (e, convert)

-- Without a logical type and a reader's schema a value that was read is left alone.
finish-plain :
    (ctx : ReadContext) (s : Schema) (reader : Reader Datum) (fo rest : Bytes) (d : Datum)
    → extract_logical_type s ≡ none
    → reader fo ≡ ok (d, rest)
    → finish ctx s none reader fo ≡ ok (d, rest)
unfolding finish
finish-plain ctx (ref name) reader fo rest d e h = h
finish-plain ctx s reader fo rest d e h = rw h (rw (convert-plain ctx d s e))

transmit_fixed :
    (b : Bytes) (size : ℕ)
    → length b ≡ size
    → Transmits (write_fixed (bytes b) size) (read_fixed size) (bytes b)
unfolding write_fixed read_fixed Encoder.write_fixed Encoder.write_raw Decoder.read_fixed
transmit_fixed b size e = (
  b,
  rw e (ground arith),
  λ rest. rw (take_front b rest size e, drop_front b rest size e) (rw e (ground arith)),
)

-- The symbol at the index that was found is the datum.
get_elem?-index_of :
    (t : Text) (symbols : List Text) (i : ℕ)
    → index_of (str t) symbols ≡ ok i
    → get_elem? symbols i ≡ some t
unfolding index_of
get_elem?-index_of t [] i e = cc
get_elem?-index_of t (u ∷ us) i e = elim (Bool-cases (eq_text t u)) [
  | inl same ↦
      let first : 0 ≡ i = cc (rw same at e) in
      subst (λ (j : ℕ). get_elem? (u ∷ us) j ≡ some t) first (ap some (sym (eq_text→eq t u same)))
  | inr other ↦
      let (j, found, next) = bind-eq_ok (index_of (str t) us) (λ k. ok (suc k)) i (rw other at e) in
      let here : suc j ≡ i = cc next in
      subst (λ (k : ℕ). get_elem? (u ∷ us) k ≡ some t) here (get_elem?-index_of t us j found)
]

transmit_enum :
    (t : Text) (i : ℕ) (symbols : List Text)
    → index_of (str t) symbols ≡ ok i
    → i < 2 ^ 63
    → Transmits (write_enum (str t) symbols) (read_enum symbols none) (str t)
unfolding write_enum read_enum Encoder.write_enum Decoder.read_enum Encoder.write_long
    resolve_symbol
transmit_enum t i symbols e h = transmit_writer (read_enum symbols none) (rw e) (
    transmit_then read_long _ (transmit_long (pos i) (h, omega arith))
      (λ rest. rw (get_elem?-index_of t symbols i e)))

transmit_index : (i : ℕ) → i < 2 ^ 63 → Transmits (Encoder.write_index i) read_index (pos i)
unfolding Encoder.write_index read_index
transmit_index i h = transmit_long (pos i) (h, omega arith)

module _ (write : Write) (read : Read) (fits : Datum → Schema → Type 0)
    (transmits : (d : Datum) (s : Schema) → fits d s → Transmits (write d s) (read s none) d)
    (valid : Datum → Schema → Result Bool) (ctx : WriteContext) (options : WriteOptions)
    (skip : Skip) (types_match : Schema → Schema → Result Bool) (rctx : ReadContext)
    (same_names : rctx.writer ≡ ctx.named_schemas) where
  transmit_union :
      (i : ℕ) (s : Schema) (d : Datum) (ss : Schemas)
      → choose_branch valid ctx options d ss ≡ ok (i, d)
      → get_schema ss i ≡ some s
      → i < 2 ^ 63
      → fits d s
      → Transmits
          (write_union write valid ctx options d ss)
          (read_union read types_match rctx default_read_options ss none)
          d
  unfolding write_union read_union reader_branch label_result
  transmit_union i s d ss chosen at h f =
      transmit_writer (read_union read types_match rctx default_read_options ss none)
        (rw (chosen, at))
        (transmit_pair read_index _ (transmit_index i h)
          (let (out, e, h') = transmits d s f in (out, e, λ rest. rw at (rw (h' rest)))))

  transmit_type :
      (d : Datum) (s : Schema)
      → FitsType fits valid ctx options d s
      → Transmits
          (run_writer write valid ctx options d s)
          (run_reader read skip types_match rctx default_read_options s none)
          d
  unfolding run_writer run_reader
  transmit_type d (prim p) h = transmit_primitive ctx h
  transmit_type d (annotated p a) h = transmit_primitive ctx h
  transmit_type d (fixed a name aliases size) (b, e, h) = rw e (transmit_fixed b size h)
  transmit_type d (enum a name aliases symbols default) (t, i, e, at, h) =
      rw e (transmit_enum t i symbols at h)
  transmit_type d (array a s) (ds, e, hn, h) =
      rw e (transmit_array write read fits transmits ds s hn h)
  transmit_type d (map a s) (es, e, hn, hd, h) =
      rw e (transmit_map write read fits transmits es s hn hd h)
  transmit_type d (union ss) (i, s, chosen, at, h, f) = transmit_union i s d ss chosen at h f
  transmit_type d (record_schema a f name aliases fs) (es, e, hd, h) =
      rw e (transmit_record write read fits transmits ctx options skip es fs hd h)
  transmit_type d (ref name) (s, found, h) =
      transmit_writer (run_reader read skip types_match rctx default_read_options (ref name) none)
        (rw found)
        (let (out, e, h') = transmits d s h in (out, e, λ rest. rw (same_names, found) (h' rest)))

pub transmit_data :
    (depth : ℕ) (ctx : WriteContext) (options : WriteOptions) (rctx : ReadContext)
    → rctx.writer ≡ ctx.named_schemas
    → (d : Datum) (s : Schema) → Fits depth ctx options d s
    → Transmits
        (write_data depth ctx options d s)
        (read_data depth rctx default_read_options s none)
        d
unfolding write_data read_data
transmit_data zero ctx options rctx same d s h = elim h [ ]
transmit_data (suc depth) ctx options rctx same d s (plain, h) =
    let (out, e, read_back) =
      transmit_type (write_data depth ctx options) (read_data depth rctx default_read_options)
        (Fits depth ctx options) (transmit_data depth ctx options rctx same)
        (λ x t. validate depth ctx options Bool.false [] (some x) t) ctx options
        (skip_data depth rctx.writer) (match_types rctx depth) rctx same d s h in
    (
      out,
      rw (prepare-plain ctx d s plain) e,
      λ rest. finish-plain rctx s _ (out ++ rest) rest d plain (read_back rest),
    )

-- A datum that fits its schema is written without an exception, and what was written is read back as
-- that datum, with everything that follows it left over. The writer's and the reader's names are the
-- same, no logical type is on the way, and there is no reader's schema.
pub read_data-write_data :
    (depth : ℕ) (ctx : WriteContext) (options : WriteOptions) (rctx : ReadContext) (d : Datum)
    (s : Schema) (rest : Bytes)
    → rctx.writer ≡ ctx.named_schemas
    → Fits depth ctx options d s
    → (write_data depth ctx options d s ≡ wrote (output (write_data depth ctx options d s)))
      × (read_data depth rctx default_read_options s none
            (output (write_data depth ctx options d s) ++ rest)
          ≡ ok (d, rest))
read_data-write_data depth ctx options rctx d s rest same h =
    let (out, e, read_back) = transmit_data depth ctx options rctx same d s h in
    rw e (refl, read_back rest)
