-- ===== src/Write/Data.antt =====
-- fastavro/_write_py.py: `write_data`, which finds the writer of a schema's type.
use fastavro.Prelude.{ℕ, zero, suc, Bool, false, [], some}
use fastavro.Python.Errors.{Result, from_option, Written, raised, ◌>>=◌, key_error, recursion_error}
use fastavro.Datum.{Datum}
use fastavro.Schema.{
  Schema, Primitive, prim, ref, union, annotated, array, map, fixed, enum, record_schema,
  find_schema,
}
use fastavro.Context.{WriteContext, WriteOptions}
use fastavro.Validation.{validate, prepare}
use fastavro.Binary.Encoder.{
  write_null, write_boolean, write_int, write_float, write_double, write_bytes, write_utf8,
}
use fastavro.Write.Values.{Write, write_fixed, write_enum, write_array, write_map}
use fastavro.Write.Unions.{write_union}
use fastavro.Write.Records.{write_record}

unfoldable pub write_primitive : WriteContext → Primitive → Datum → Written
write_primitive ctx Primitive.null datum = write_null
write_primitive ctx Primitive.boolean datum = write_boolean datum
write_primitive ctx Primitive.string datum = write_utf8 datum
write_primitive ctx Primitive.int datum = write_int datum
write_primitive ctx Primitive.long datum = write_int datum
write_primitive ctx Primitive.float datum = write_float ctx.platform datum
write_primitive ctx Primitive.double datum = write_double ctx.platform datum
write_primitive ctx Primitive.bytes datum = write_bytes datum

-- The writer of `WRITERS` for the schema's type; any other type is a name.
unfoldable pub run_writer :
    Write → (Datum → Schema → Result Bool) → WriteContext → WriteOptions → Write
run_writer write valid ctx options datum (prim p) = write_primitive ctx p datum
run_writer write valid ctx options datum (annotated p a) = write_primitive ctx p datum
run_writer write valid ctx options datum (fixed a name aliases size) = write_fixed datum size
run_writer write valid ctx options datum (enum a name aliases symbols default) =
    write_enum datum symbols
run_writer write valid ctx options datum (array a s) = write_array write datum s
run_writer write valid ctx options datum (map a s) = write_map write datum s
run_writer write valid ctx options datum (union ss) = write_union write valid ctx options datum ss
run_writer write valid ctx options datum (record_schema a f name aliases fs) =
    write_record write ctx options datum fs
run_writer write valid ctx options datum (ref name) = do
  s ← from_option key_error (find_schema name ctx.named_schemas)
  write datum s

-- The fuel is the depth of calls that Python has left.
unfoldable pub write_data : ℕ → WriteContext → WriteOptions → Write
write_data zero ctx options datum s = raised recursion_error []
write_data (suc depth) ctx options datum s = do
  d ← prepare ctx.logical_writers datum s
  run_writer (write_data depth ctx options) (λ x t. validate depth ctx options false [] (some x) t)
      ctx options d s
