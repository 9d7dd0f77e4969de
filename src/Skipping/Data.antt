-- ===== src/Skipping/Data.antt =====
-- `skip_data` against `read_data`, for every type of schema.
use fastavro.Prelude.{Bool, ap, ◌∙◌, ℕ, zero, suc, none, ◌≡◌}
use fastavro.Python.Errors.{Result, ok, err, bind, bind-eq_ok, from_option, key_error, struct_error}
use fastavro.Python.Text.{Bytes, decode}
use fastavro.Python.Files.{Reader, pure, fail, ◌>>=◌}
use fastavro.Datum.{Datum, no_entries}
use fastavro.Schema.{
  Schema, Schemas, Primitive, prim, ref, union, annotated, array, map, fixed, enum, record_schema,
  find_schema,
}
use fastavro.Context.{ReadContext, ReadOptions}
use fastavro.Resolution.{match_types}
use fastavro.Binary.Decoder
use fastavro.Binary.Decoder.{
  read_null, read_boolean, read_utf8, read_long, read_float, read_double, read_bytes, read_index,
}
use fastavro.Read.Values.{
  Read, Skip, read_primitive, skip_primitive, read_fixed, read_enum, schema_at, skip_union,
}
use fastavro.Read.Unions.{read_union, reader_branch}
use fastavro.Read.Records.{read_record, read_fields}
use fastavro.Read.Data.{
  run_skip, skip_data, run_reader, no_struct_error, convert, finish, read_data,
}
use fastavro.Skipping.Follows.{Follows, follow_same, follow_then, fail-rest, pure-rest}
use fastavro.Skipping.Blocks.{follow_array, follow_map, follow_fields}

-- A value is read and wrapped, or read and dropped.
follow_drop :
    {A : Type 0} (r : Reader A) (f : A → Datum)
    → Follows (r >>= λ a. pure (f a)) (r >>= λ _. pure tt)
follow_drop r f = follow_same r _ (λ a fo rest d e. cc)

module _ (options : ReadOptions) (strict : options.decode_with ≡ decode) where
  follow_primitive : (p : Primitive) → Follows (read_primitive options p) (skip_primitive p)
  unfolding read_primitive skip_primitive read_null
  follow_primitive Primitive.null = λ fo rest d e. cc
  follow_primitive Primitive.boolean = follow_drop read_boolean _
  follow_primitive Primitive.string = rw strict (follow_drop (read_utf8 decode) _)
  follow_primitive Primitive.int = follow_drop read_long _
  follow_primitive Primitive.long = follow_drop read_long _
  follow_primitive Primitive.float = follow_drop read_float _
  follow_primitive Primitive.double = follow_drop read_double _
  follow_primitive Primitive.bytes = follow_drop read_bytes _

  module _ (read : Read) (skip : Skip) (types_match : Schema → Schema → Result Bool)
      (ctx : ReadContext) (h : (s : Schema) → Follows (read s none) (skip s)) where
    follow_union :
        (ss : Schemas)
        → Follows (read_union read types_match ctx options ss none) (skip_union skip ss)
    unfolding read_union skip_union reader_branch
    follow_union ss = follow_same read_index _ (λ i.
        follow_same (fail (schema_at ss i)) _
          (λ s. follow_then (read s none) _ (h s) (λ d mid rest a. fail-rest _ mid rest a)))

    follow_type :
        (s : Schema)
        → Follows (run_reader read skip types_match ctx options s none) (run_skip skip ctx.writer s)
    unfolding run_reader run_skip read_fixed read_enum read_record
    follow_type (prim p) = follow_primitive p
    follow_type (annotated p a) = follow_primitive p
    follow_type (fixed a name aliases size) = follow_drop (Decoder.read_fixed _) _
    follow_type (enum a name aliases symbols default) =
        follow_same Decoder.read_enum _
          (λ i mid rest d e. ap (λ (x : Bytes). ok (tt, x)) (fail-rest _ mid rest d e))
    follow_type (array a s) = follow_array read skip h s
    follow_type (map a s) = follow_map read skip h s
    follow_type (union ss) = follow_union ss
    follow_type (record_schema a f name aliases fs) =
        follow_then (read_fields read fs no_entries) _ (follow_fields read skip h fs no_entries)
          (λ es mid rest d. pure-rest _ d mid rest)
    follow_type (ref name) =
        follow_same (fail (from_option key_error (find_schema name ctx.writer))) _ (λ s. h s)

no_struct_error-eq_ok : {A : Type 0} (m : Result A) (a : A) → no_struct_error m ≡ ok a → m ≡ ok a
no_struct_error-eq_ok (ok b) a e = e
no_struct_error-eq_ok (err struct_error) a e = cc
no_struct_error-eq_ok (err x) a e = cc

converted-reads :
    (f : Datum → Result Datum) (m : Result (Datum × Bytes)) (d : Datum) (rest : Bytes)
    → bind {B = Datum × Bytes} (no_struct_error m) (λ (x, left). bind (f x) (λ y. ok (y, left)))
      ≡ ok (d, rest)
    → (x : Datum) × (m ≡ ok (x, rest))
converted-reads f m d rest e =
    let ((x, left), h, g) = bind-eq_ok (no_struct_error m) _ (d, rest) e in
    let (y, p, q) = bind-eq_ok (f x) _ (d, rest) g in
    let same : left ≡ rest = cc in
    (x, no_struct_error-eq_ok m (x, rest) (h ∙ ap (λ (b : Bytes). ok (x, b)) same))

-- A reader's value is still to be converted, which reads nothing.
finish-reads :
    (ctx : ReadContext) (s : Schema) (r : Reader Datum) (fo rest : Bytes) (d : Datum)
    → finish ctx s none r fo ≡ ok (d, rest)
    → (x : Datum) × (r fo ≡ ok (x, rest))
unfolding finish
finish-reads ctx (ref name) r fo rest d e = (d, e)
finish-reads ctx s r fo rest d e = converted-reads (convert ctx s none) (r fo) d rest e

-- Wherever a value can be read without a reader's schema, whatever the options, `skip_data` skips it
-- without an exception and leaves exactly the bytes that `read_data` leaves. Texts are read with the
-- strict decoding, which is the default and which a skip always uses.
pub skip_data-read_data :
    (depth : ℕ) (ctx : ReadContext) (options : ReadOptions) (s : Schema) (fo rest : Bytes)
    (d : Datum)
    → options.decode_with ≡ decode
    → read_data depth ctx options s none fo ≡ ok (d, rest)
    → skip_data depth ctx.writer s fo ≡ ok (tt, rest)
unfolding read_data skip_data
skip_data-read_data zero ctx options s fo rest d strict e = cc
skip_data-read_data (suc depth) ctx options s fo rest d strict e =
    let (x, h) = finish-reads ctx s _ fo rest d e in
    follow_type options strict (read_data depth ctx options) (skip_data depth ctx.writer)
      (match_types ctx depth) ctx
      (λ t fo' rest' d' e'. skip_data-read_data depth ctx options t fo' rest' d' strict e') s fo
      rest x h
