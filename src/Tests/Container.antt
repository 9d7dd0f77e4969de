-- ===== src/Tests/Container.antt =====
-- Two records in blocks of their own.
use fastavro.Prelude.{List, [], ◌∷◌, ◌≡◌, refl, none, false, true, replicate, arith}
use fastavro.Python.Text.{encode, encode_char, eq_text}
use fastavro.Schema.{extract_logical_type, extract_record_type, find_schema}
use fastavro.Datum.{Datum}
use fastavro.Context.{default_write_options, default_read_options}
use fastavro.Validation.{
  validate, validate_record, all_fields, validate_long, validate_array, all_items, validate_union,
  validate_any, run_validator, validate_primitive, validate_null, prepare,
}
use fastavro.Binary.Encoder.{
  write_null, write_int, write_long, write_groups, zigzag, write_bytes, write_utf8, write_raw,
  write_array_start, write_item_count, end_item, write_array_end, write_index,
}
use fastavro.Write.Values.{write_array, write_items}
use fastavro.Write.Unions.{
  choose_branch, choose_any, choose_from, try_candidate, fitting_candidate, resolve, common_fields,
  write_union,
}
use fastavro.Write.Records.{write_record, write_fields, field_value, has_extras}
use fastavro.Write.Data.{write_data, run_writer, write_primitive}
use fastavro.Read.Data.{read_data}
use fastavro.Container.Codecs.{null_write_block, null_read_block}
use fastavro.Container.Writer.{Settings, check_record, write_records, fresh}
use fastavro.Container.Blocks.{iter_avro_records}
use fastavro.Container.RoundTrip.{IsWritable, total_size, iter_avro_records-write_records}
use fastavro.Tests.Samples.{node, node_datum, write_context, read_context}
use fastavro.Tests.RoundTrip.{node-Fits}

abbrev settings : Settings
settings = record {
  schema = node;
  context = write_context;
  options = default_write_options;
  has_validator = false;
  block_writer = null_write_block;
  compression_level = none;
  sync_interval = 8;
  sync_marker = replicate 16 7;
  depth = 6;
}

abbrev records : List Datum
records = node_datum ∷ node_datum ∷ []

node-IsWritable : IsWritable settings node_datum
unfolding check_record
node-IsWritable = ((true, refl), node-Fits)

total_size_run : total_size settings records ≡ 22
unfolding total_size write_data run_writer prepare extract_logical_type write_record write_fields
    has_extras field_value write_primitive write_int write_groups zigzag write_array write_items
    write_array_start write_item_count write_long write_utf8 write_bytes write_raw encode
    encode_char end_item write_array_end write_union choose_branch choose_any choose_from
    try_candidate fitting_candidate resolve common_fields validate run_validator validate_primitive
    validate_null validate_record all_fields validate_long validate_array all_items validate_union
    validate_any eq_text find_schema write_index write_null extract_record_type
total_size_run = refl

iter_avro_records-write_records_example :
    ((write_records settings fresh records).1 ≡ none)
    × (iter_avro_records null_read_block settings.sync_marker
          (read_data 6 read_context default_read_options node none)
          (write_records settings fresh records).0.fo
        ≡ (records, none))
iter_avro_records-write_records_example =
    iter_avro_records-write_records settings read_context records refl refl refl
      (node-IsWritable, (node-IsWritable, tt)) (omega arith) (omega (arith, total_size_run))
