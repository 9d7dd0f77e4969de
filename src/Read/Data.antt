-- ===== src/Read/Data.antt =====
-- fastavro/_read_py.py: `read_data` and `skip_data`, which find the reader of a schema's type.
use fastavro.Prelude.{ℕ, zero, suc, Bool, Option, none, some}
use fastavro.Python.Errors.{
  Result, ok, err, bind, from_option, eof_error, struct_error, type_error, key_error,
  recursion_error,
}
use fastavro.Python.Ints.{pos}
use fastavro.Python.Files.{Reader, pure, fail, ◌>>=◌}
use fastavro.Datum.{Datum}
use fastavro.Schema.{
  Schema, prim, ref, union, annotated, array, map, fixed, enum, record_schema, extract_record_type,
  extract_logical_type, find_schema, NamedSchemas,
}
use fastavro.Context.{ReadContext, ReadOptions}
use fastavro.Resolution.{match_types, match_schemas, maybe_promote}
use fastavro.Read.Values.{
  Read, Skip, given, read_primitive, skip_primitive, read_fixed, read_enum, read_array, read_map,
  skip_array, skip_map, skip_union,
}
use fastavro.Read.Unions.{read_union}
use fastavro.Read.Records.{read_record, skip_record}
use fastavro.Binary.Decoder

-- The skip of `SKIPS` for the schema's type; any other type is a name.
unfoldable pub run_skip : Skip → NamedSchemas → Skip
run_skip skip table (prim p) = skip_primitive p
run_skip skip table (annotated p a) = skip_primitive p
run_skip skip table (fixed a name aliases size) = Decoder.read_fixed (pos size) >>= λ _. pure tt
run_skip skip table (enum a name aliases symbols default) = Decoder.read_enum >>= λ _. pure tt
run_skip skip table (array a s) = skip_array skip s
run_skip skip table (map a s) = skip_map skip s
run_skip skip table (union ss) = skip_union skip ss
run_skip skip table (record_schema a f name aliases fs) = skip_record skip fs
run_skip skip table (ref name) =
    fail (from_option key_error (find_schema name table)) >>= λ s. skip s

-- The fuel is the depth of calls that Python has left.
unfoldable pub skip_data : ℕ → NamedSchemas → Skip
skip_data zero table s = fail (err recursion_error)
skip_data (suc depth) table s = run_skip (skip_data depth table) table s

-- `named_schemas["reader"].get(reader_schema)`: a schema that is no string cannot be a key.
abbrev pub reader_named : NamedSchemas → Option Schema → Result (Option Schema)
reader_named table none = ok none
reader_named table (some (ref name)) = ok (find_schema name table)
reader_named table (some (prim p)) = ok none
reader_named table (some s) = err type_error

-- The reader of `READERS` for the schema's type, but for references.
unfoldable pub run_reader :
    Read → Skip → (Schema → Schema → Result Bool) → ReadContext → ReadOptions → Read
run_reader read skip types_match ctx options (prim p) r = read_primitive options p
run_reader read skip types_match ctx options (annotated p a) r = read_primitive options p
run_reader read skip types_match ctx options (fixed a name aliases size) r = read_fixed size
run_reader read skip types_match ctx options (enum a name aliases symbols default) r =
    read_enum symbols r
run_reader read skip types_match ctx options (array a s) r = read_array read s r
run_reader read skip types_match ctx options (map a s) r = read_map read s r
run_reader read skip types_match ctx options (union ss) r =
    read_union read types_match ctx options ss r
run_reader read skip types_match ctx options (record_schema a f name aliases fs) r =
    read_record read skip fs r
run_reader read skip types_match ctx options (ref name) r =
    fail (from_option key_error (find_schema name ctx.writer)) >>= λ s.
    fail (reader_named ctx.reader r) >>= λ r'. read s r'

-- `except StructError: raise EOFError`
abbrev pub no_struct_error {ℓ} : {A : Type ℓ} → Result A → Result A
no_struct_error (ok a) = ok a
no_struct_error (err struct_error) = err eof_error
no_struct_error (err e) = err e

-- What becomes of a value that was read: its logical type, or else the promotion to the reader's type.
unfoldable pub convert : ReadContext → Schema → Option Schema → Datum → Result Datum
convert ctx s r d =
    let promoted : Result Datum = elim r [
      | none ↦ ok d
      | some rs ↦ maybe_promote ctx.platform d (extract_record_type s) (extract_record_type rs)
    ] in
    elim (extract_logical_type s) [
      | none ↦ promoted
      | some lt ↦ elim (ctx.logical_readers lt) [ none ↦ promoted | some f ↦ f d s r ]
    ]

-- `if reader_schema: reader_schema = match_schemas(…)`
abbrev pub matching :
    (Schema → Schema → Result Schema) → Schema → Option Schema → Result (Option Schema)
matching match_with s r = elim (given r) [
  | none ↦ ok r
  | some rs ↦ bind (match_with s rs) (λ found. ok (some found))
]

-- A value of a schema's own type, and a reference, which the named type's reader has converted.
unfoldable pub finish : ReadContext → Schema → Option Schema → Reader Datum → Reader Datum
finish ctx (ref name) r reader fo = reader fo
finish ctx s r reader fo =
    bind (no_struct_error (reader fo)) (λ (d, rest). bind (convert ctx s r d) (λ x. ok (x, rest)))

unfoldable pub read_data : ℕ → ReadContext → ReadOptions → Read
read_data zero ctx options s r = fail (err recursion_error)
read_data (suc depth) ctx options s r = fail (matching (match_schemas ctx depth) s r) >>= λ r'.
    finish ctx s r' (
      run_reader (read_data depth ctx options) (skip_data depth ctx.writer) (match_types ctx depth)
        ctx options s r')
