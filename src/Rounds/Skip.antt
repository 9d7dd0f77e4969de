-- ===== src/Rounds/Skip.antt =====
-- The skips of fastavro/_read_py.py end, on any bytes.
use fastavro.Prelude.{ℕ, zero, suc, length}
use fastavro.Python.Errors.{recursion_error, err, from_option, key_error, index_error}
use fastavro.Python.Errors.InRounds.{InRounds, InRounds-option, InRounds-from_option}
use fastavro.Python.Ints.{ℤ, pos}
use fastavro.Python.Text.{Bytes, decode}
use fastavro.Python.Files.{Reader, pure, fail, ◌>>=◌}
use fastavro.Schema.{
  Schema, Schemas, Fields, Primitive, NamedSchemas, prim, ref, union, annotated, array, map, fixed,
  enum, record_schema, no_fields, field, get_schema, count_schemas, find_schema,
}
use fastavro.Read.Values.{
  list_index, schema_at, skip_primitive, Skip, skip_array, skip_map, skip_union,
}
use fastavro.Read.Records.{skip_record}
use fastavro.Read.Data.{run_skip, skip_data}
use fastavro.Binary.Decoder.{
  read_long, read_utf8, read_index, read_boolean, read_float, read_double, read_bytes,
  iter_array_or_map,
}
use fastavro.Binary.Decoder
use fastavro.Rounds.Shrinks.{Bounded, Shrinks, Shrinks-bind, Shrinks-pure, fail-Bounded}
use fastavro.Rounds.Decoder.{
  read_index-Shrinks, read_enum-Shrinks, read_null-Shrinks, read_boolean-Shrinks, read_long-Shrinks,
  read_float-Shrinks, read_double-Shrinks, read_bytes-Shrinks, read_utf8-Shrinks,
  read_fixed-Shrinks, iter_array_or_map-Shrinks,
}
use fastavro.Rounds.Values.{decode-InRounds}

-- A reader whose value is put into a datum.
pub then_pure {ℓ κ} :
    {A : Type ℓ} {B : Type κ} (m : Reader A) (f : A → B)
    → Shrinks m
    → Shrinks (m >>= λ a. pure (f a))
then_pure m f h = Shrinks-bind m (λ a. pure (f a)) h (λ a. Shrinks-pure (f a))

pub schema_at-InRounds : (ss : Schemas) (i : ℤ) → InRounds (schema_at ss i)
unfolding InRounds
schema_at-InRounds ss i =
    InRounds-option (list_index (count_schemas ss) i) (err index_error) _ tt
      (λ j. InRounds-from_option index_error (get_schema ss j) tt)

skip_primitive-Shrinks : (p : Primitive) → Shrinks (skip_primitive p)
unfolding skip_primitive
skip_primitive-Shrinks Primitive.null = then_pure Decoder.read_null _ read_null-Shrinks
skip_primitive-Shrinks Primitive.boolean = then_pure read_boolean _ read_boolean-Shrinks
skip_primitive-Shrinks Primitive.string =
    then_pure (read_utf8 decode) _ (read_utf8-Shrinks decode decode-InRounds)
skip_primitive-Shrinks Primitive.int = then_pure read_long _ read_long-Shrinks
skip_primitive-Shrinks Primitive.long = then_pure read_long _ read_long-Shrinks
skip_primitive-Shrinks Primitive.float = then_pure read_float _ read_float-Shrinks
skip_primitive-Shrinks Primitive.double = then_pure read_double _ read_double-Shrinks
skip_primitive-Shrinks Primitive.bytes = then_pure read_bytes _ read_bytes-Shrinks

module _ (skip : Skip) (table : NamedSchemas) (ih : (s : Schema) → Shrinks (skip s)) where
  skip_record-Shrinks : (fs : Fields) → Shrinks (skip_record skip fs)
  unfolding skip_record
  skip_record-Shrinks no_fields = Shrinks-pure _
  skip_record-Shrinks (field name s default aliases fs) =
      Shrinks-bind (skip s) _ (ih s) (λ u. skip_record-Shrinks fs)

  run_skip-Shrinks : (s : Schema) → Shrinks (run_skip skip table s)
  unfolding run_skip skip_array skip_map skip_union InRounds
  run_skip-Shrinks (prim p) = skip_primitive-Shrinks p
  run_skip-Shrinks (annotated p a) = skip_primitive-Shrinks p
  run_skip-Shrinks (fixed a name aliases size) =
      then_pure (Decoder.read_fixed (pos size)) _ (read_fixed-Shrinks (pos size))
  run_skip-Shrinks (enum a name aliases symbols default) =
      then_pure Decoder.read_enum _ read_enum-Shrinks
  run_skip-Shrinks (array a s) = iter_array_or_map-Shrinks (λ _. skip s) (λ _. ih s) tt
  run_skip-Shrinks (map a s) =
      iter_array_or_map-Shrinks (λ _. read_utf8 decode >>= λ key. skip s)
        (λ _.
          Shrinks-bind (read_utf8 decode) _ (read_utf8-Shrinks decode decode-InRounds)
            (λ key. ih s))
        tt
  run_skip-Shrinks (union ss) = Shrinks-bind read_index _ read_index-Shrinks (λ i.
      Shrinks-bind (fail (schema_at ss i)) _
        (fail-Bounded (schema_at ss i) (schema_at-InRounds ss i)) (λ s. ih s))
  run_skip-Shrinks (record_schema a f name aliases fs) = skip_record-Shrinks fs
  run_skip-Shrinks (ref name) =
      Shrinks-bind (fail (from_option key_error (find_schema name table))) _
        (fail-Bounded _ (InRounds-from_option key_error (find_schema name table) tt)) (λ s. ih s)

pub skip_data-Shrinks :
    (depth : ℕ) (table : NamedSchemas) (s : Schema) → Shrinks (skip_data depth table s)
unfolding skip_data InRounds
skip_data-Shrinks zero table s = fail-Bounded (err recursion_error) tt
skip_data-Shrinks (suc depth) table s =
    run_skip-Shrinks (skip_data depth table) table (skip_data-Shrinks depth table) s

-- On any bytes, `skip_data` does not run out of the rounds that its loops are given, whatever it
-- comes upon, and if it returns, it leaves no more bytes than there were.
pub skip_data-Bounded :
    (depth : ℕ) (table : NamedSchemas) (s : Schema) (fo : Bytes)
    → Bounded (length fo) (skip_data depth table s fo)
skip_data-Bounded depth table s fo = skip_data-Shrinks depth table s fo
