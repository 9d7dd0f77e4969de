-- ===== src/Tests/Samples.antt =====
-- A schema, a datum and the contexts for the tests.
use fastavro.Prelude.{[], ◌∷◌, none, false}
use fastavro.Python.Errors.{ok, err, value_error}
use fastavro.Python.Ints.{pos, negsuc}
use fastavro.Python.Text.{text}
use fastavro.Datum.{Datum, Platform, nil, cons, no_entries, entry, dict, list, str, int, null}
use fastavro.Schema.{
  Schema, Attrs, Primitive, prim, ref, union, array, record_schema, plain, no_schemas, also,
  no_fields, field,
}
use fastavro.Context.{WriteContext, ReadContext}

abbrev pub no_attrs : Attrs
no_attrs = record { logical_type = none; scale = none; precision = none }

abbrev pub platform : Platform
platform = record {
  float_of_text = λ s. err value_error;
  float_of_decimal = λ s ds e. err value_error;
  mktime = λ t. t;
  uuid_of_text = λ s. ok s;
  is_windows = false;
}

-- A linked list of longs with a tag.
abbrev pub node : Schema
node = record_schema no_attrs plain (text "Node") [] (
    field (text "value") (prim Primitive.long) none [] (
      field (text "tags") (array no_attrs (prim Primitive.string)) none [] (
        field (text "next")
          (union (also (prim Primitive.null) (also (ref (text "Node")) no_schemas))) none []
          no_fields)))

abbrev pub last_datum : Datum
last_datum = dict (
    entry (text "value") (int (pos 7))
      (entry (text "tags") (list nil) (entry (text "next") null no_entries)))

abbrev pub node_datum : Datum
node_datum = dict (
    entry (text "value") (int (negsuc 299)) (
      entry (text "tags") (list (cons (str (text "é")) nil))
        (entry (text "next") last_datum no_entries)))

abbrev pub write_context : WriteContext
write_context = record {
  named_schemas = (text "Node", node) ∷ [];
  logical_writers = λ t. none;
  platform = platform;
}

abbrev pub read_context : ReadContext
read_context = record {
  writer = (text "Node", node) ∷ [];
  reader = [];
  logical_readers = λ t. none;
  platform = platform;
}
