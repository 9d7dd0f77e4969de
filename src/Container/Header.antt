-- ===== src/Container/Header.antt =====
-- The header of a container file: fastavro/_read_common.py, `write_header` and `_read_header`.
use fastavro.Prelude.{ℕ, none, List, [], ◌∷◌}
use fastavro.Python.Errors.{Result, ok, err, bind, Written, ◌>>=◌, eof_error, value_error}
use fastavro.Python.Text.{Text, Bytes, text, encode}
use fastavro.Datum.{Datum, Entries, Platform, no_entries, entry, bytes, dict}
use fastavro.Schema.{
  Schema, Attrs, Primitive, prim, map, fixed, record_schema, plain, no_fields, field,
}
use fastavro.Context.{ReadContext, ReadOptions, LogicalWriters, default_write_options}
use fastavro.Write.Data.{write_data}
use fastavro.Read.Data.{read_data}

-- `MAGIC = b"Obj" + chr(VERSION).encode()`
abbrev pub magic : Bytes
magic = 79 ∷ 98 ∷ 106 ∷ 1 ∷ []

abbrev pub sync_size : ℕ
sync_size = 16

abbrev no_attrs : Attrs
no_attrs = record { logical_type = none; scale = none; precision = none }

abbrev pub header_schema : Schema
header_schema = record_schema no_attrs plain (text "org.apache.avro.file.Header") [] (
    field (text "magic") (fixed no_attrs (text "magic") [] 4) none [] (
      field (text "meta") (map no_attrs (prim Primitive.bytes)) none []
        (field (text "sync") (fixed no_attrs (text "sync") [] sync_size) none [] no_fields)))

-- `{key: value.encode() for key, value in metadata.items()}`
unfoldable pub encoded_metadata : List (Text × Text) → Result Entries
encoded_metadata [] = ok no_entries
encoded_metadata ((key, value) ∷ more) =
    bind (encode value) (λ b. bind (encoded_metadata more) (λ es. ok (entry key (bytes b) es)))

unfoldable pub header : Bytes → List (Text × Text) → Result Datum
header sync_marker metadata = bind (encoded_metadata metadata) (λ meta. ok (
    dict (
      entry (text "magic") (bytes magic)
        (entry (text "meta") (dict meta) (entry (text "sync") (bytes sync_marker) no_entries)))))

unfoldable pub write_header : ℕ → LogicalWriters → Platform → List (Text × Text) → Bytes → Written
write_header depth table py metadata sync_marker = header sync_marker metadata >>= λ datum.
    write_data depth (record { named_schemas = []; logical_writers = table; platform = py })
      default_write_options datum header_schema

-- The header as `_read_header` reads it; the caller takes the codec and the schema out of it.
unfoldable pub read_header : ℕ → ReadContext → ReadOptions → Bytes → Result (Datum × Bytes)
read_header depth ctx options fo = elim (read_data depth ctx options header_schema none fo) [
  | ok found ↦ ok found
  | err eof_error ↦ err value_error
  | err e ↦ err e
]
