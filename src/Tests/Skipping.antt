-- ===== src/Tests/Skipping.antt =====
-- A record with an array in blocks of either form, read and skipped.
use fastavro.Prelude.{[], ◌∷◌, none, ◌≡◌, refl}
use fastavro.Python.Errors.{ok}
use fastavro.Python.Text.{Bytes, decode, decode_from, decode_step, finish_char, eq_text}
use fastavro.Context.{default_read_options}
use fastavro.Read.Data.{read_data, skip_data, finish, run_reader, convert}
use fastavro.Read.Records.{read_record, read_fields}
use fastavro.Read.Unions.{read_union, reader_branch, label_result}
use fastavro.Read.Values.{read_primitive, read_array, read_item}
use fastavro.Binary.Decoder.{
  read_long, read_groups, iter_array_or_map, iter_blocks, unzigzag, block_items, repeat, read_bytes,
  read_index, read_null, read_utf8,
}
use fastavro.Python.Ints.{◌-ℤ◌}
use fastavro.Schema.{
  extract_logical_type, extract_record_type, find_schema, is_single_name_union,
  is_single_record_union, name_and_record_counts,
}
use fastavro.Skipping.Data.{skip_data-read_data}
use fastavro.Tests.Samples.{node, node_datum, read_context}

-- The tags stand in a block whose count is negative and whose size follows.
abbrev node_bytes : Bytes
node_bytes =
    0xD7 ∷ 0x04 ∷ 0x01 ∷ 0x06 ∷ 0x04 ∷ 0xC3 ∷ 0xA9 ∷ 0x00 ∷ 0x02 ∷ 0x0E ∷ 0x00 ∷ 0x00 ∷ 0xFF ∷ []

node_run :
    read_data 6 read_context default_read_options node none node_bytes ≡ ok (node_datum, 0xFF ∷ [])
unfolding read_data finish run_reader read_record read_fields read_primitive read_long read_groups
    convert extract_logical_type read_array iter_array_or_map iter_blocks unzigzag ◌-ℤ◌ block_items
    repeat read_item read_bytes read_index read_null read_utf8 decode decode_from decode_step
    finish_char read_union reader_branch label_result eq_text extract_record_type find_schema
    is_single_name_union is_single_record_union name_and_record_counts
node_run = refl

skip_data-read_data_example : skip_data 6 read_context.writer node node_bytes ≡ ok (tt, 0xFF ∷ [])
skip_data-read_data_example =
    skip_data-read_data 6 read_context default_read_options node node_bytes (0xFF ∷ []) node_datum
      refl node_run
