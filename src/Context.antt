-- ===== src/Context.antt =====
-- What a call of the readers and writers is handed beside its schema and its data: the named
-- schemas, the tables of logical types, the options, and the platform.
use fastavro.Prelude.{Bool, false, Option}
use fastavro.Python.Errors.{Result}
use fastavro.Python.Text.{Text, Bytes, decode}
use fastavro.Datum.{Datum, Platform}
use fastavro.Schema.{Schema, NamedSchemas}

-- `LOGICAL_WRITERS` and `LOGICAL_READERS`: programs may add entries, so the tables are arguments.
abbrev pub LogicalWriters : Type 0
LogicalWriters = Text → Option (Datum → Schema → Result Datum)

abbrev pub LogicalReaders : Type 0
LogicalReaders = Text → Option (Datum → Schema → Option Schema → Result Datum)

pub record WriteContext : Type 0 where
  pub named_schemas : NamedSchemas
  pub logical_writers : LogicalWriters
  pub platform : Platform

pub record WriteOptions : Type 0 where
  pub strict : Bool
  pub strict_allow_default : Bool
  pub disable_tuple_notation : Bool

-- `named_schemas["writer"]` and `named_schemas["reader"]`.
pub record ReadContext : Type 0 where
  pub writer : NamedSchemas
  pub reader : NamedSchemas
  pub logical_readers : LogicalReaders
  pub platform : Platform

-- `decode_with` is `bytes.decode` under the option `handle_unicode_errors`.
pub record ReadOptions : Type 0 where
  pub return_record_name : Bool
  pub return_record_name_override : Bool
  pub return_named_type : Bool
  pub return_named_type_override : Bool
  pub decode_with : Bytes → Result Text

abbrev pub default_write_options : WriteOptions
default_write_options = record {
  strict = false;
  strict_allow_default = false;
  disable_tuple_notation = false;
}

abbrev pub default_read_options : ReadOptions
default_read_options = record {
  return_record_name = false;
  return_record_name_override = false;
  return_named_type = false;
  return_named_type_override = false;
  decode_with = decode;
}
