-- ===== src/Container/Recognition.antt =====
-- `is_avro` of fastavro/_read_py.py, on a file that is open.
use fastavro.Prelude.{ℕ, suc, Bool, true, List, [], ◌++◌, ◌≡◌, refl}
use fastavro.Python.Errors.{ok, Written, wrote, raised, after, output}
use fastavro.Python.Ints.{pos}
use fastavro.Python.Text.{eq_text, text, Text, Bytes}
use fastavro.Python.Files.{read}
use fastavro.Datum.{Entries, Platform, entry, no_entries, bytes, dict}
use fastavro.Schema.{Fields, field, no_fields, record_schema, extract_logical_type}
use fastavro.Binary.Encoder.{write_raw}
use fastavro.Binary.Encoder
use fastavro.Context.{WriteContext, LogicalWriters, default_write_options}
use fastavro.Validation.{prepare}
use fastavro.Write.Values.{write_fixed}
use fastavro.Write.Records.{field_value, write_fields, write_record}
use fastavro.Write.Data.{write_data, run_writer}
use fastavro.Container.Header.{magic, header_schema, encoded_metadata, header, write_header}

unfoldable pub is_avro : Bytes → Bool
is_avro fp = eq_text (read (pos 4) fp).0 magic

after-magic : (more : Written) (rest : Bytes) → is_avro (output (after magic more) ++ rest) ≡ true
unfolding is_avro eq_text
after-magic (wrote out) rest = refl
after-magic (raised e out) rest = refl

abbrev header_entries : Bytes → Entries → Entries
header_entries sync_marker meta =
    entry (text "magic") (bytes magic)
      (entry (text "meta") (dict meta) (entry (text "sync") (bytes sync_marker) no_entries))

-- The fields of the header after the magic bytes.
abbrev header_more : Fields
header_more = elim header_schema [
  | record_schema a f name aliases (field n s d als fs) ↦ fs
  | s ↦ no_fields
]

-- A file that `write_header` has begun is an Avro file, also if an exception was raised before the
-- header was whole, if the values of the metadata can be encoded.
pub is_avro-write_header :
    (depth : ℕ) (table : LogicalWriters) (py : Platform) (metadata : List (Text × Text))
    (meta : Entries) (sync_marker rest : Bytes)
    → encoded_metadata metadata ≡ ok meta
    → is_avro (output (write_header (suc (suc depth)) table py metadata sync_marker) ++ rest) ≡ true
unfolding write_header header write_data Encoder.write_fixed write_raw run_writer write_record
    write_fields field_value prepare extract_logical_type eq_text write_fixed
is_avro-write_header depth table py metadata meta sync_marker rest e =
    let ctx : WriteContext = record {
      named_schemas = [];
      logical_writers = table;
      platform = py;
    } in
    rw e (
      after-magic
        (write_fields (write_data (suc depth) ctx default_write_options) ctx default_write_options
          (header_entries sync_marker meta) header_more)
        rest)
