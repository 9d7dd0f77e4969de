-- ===== src/Schemaless/Delivery.antt =====
-- What `schemaless_writer` writes, `schemaless_reader` reads (fastavro/_write_py.py, fastavro/_read_py.py).
use fastavro.Prelude.{ℕ, none, [], ◌++◌, ◌≡◌, refl}
use fastavro.Python.Errors.{ok, wrote, output}
use fastavro.Python.Text.{Bytes}
use fastavro.Datum.{Datum, Platform}
use fastavro.Schema.{Schema, NamedSchemas}
use fastavro.Context.{WriteOptions, LogicalWriters, LogicalReaders, default_read_options}
use fastavro.RoundTrip.Fits.{Fits}
use fastavro.RoundTrip.Data.{read_data-write_data}
use fastavro.Schemaless.{
  parsed, write_context, read_context, schemaless_writer, schemaless_reader, parsed_reader,
  other_schema,
}

-- If the schema can be parsed and the datum fits the parsed schema, then it is written without an
-- exception, and what was written is read back with the same schema as that datum, with everything that
-- follows it left over.
pub schemaless_reader-schemaless_writer :
    (depth : ℕ) (writers : LogicalWriters) (readers : LogicalReaders) (py : Platform)
    (options : WriteOptions) (schema datum : Datum) (s : Schema) (named : NamedSchemas)
    (rest : Bytes)
    → parsed depth py schema ≡ ok (s, named)
    → Fits depth (write_context writers py named) options datum s
    → (schemaless_writer depth writers py options schema datum
        ≡ wrote (output (schemaless_writer depth writers py options schema datum)))
      × (schemaless_reader depth readers py default_read_options schema none
            (output (schemaless_writer depth writers py options schema datum) ++ rest)
          ≡ ok (datum, rest))
unfolding schemaless_writer schemaless_reader parsed_reader other_schema
schemaless_reader-schemaless_writer depth writers readers py options schema datum s named rest e
      fits =
    let (writes, reads) =
      read_data-write_data depth (write_context writers py named) options
        (read_context readers py named []) datum s rest refl fits in
    rw e (writes, reads)
