-- ===== src/Tests/Parsing.antt =====
-- Schema parsing at one schema: a record that names itself, with an enum inside
-- (fastavro/_schema_py.py).
use fastavro.Prelude.{false, [], ◌∷◌, ◌++◌, ◌<◌, none, some, ◌≡◌, refl, arith}
use fastavro.Python.Errors.{ok}
use fastavro.Python.Errors.Ends.{Ends}
use fastavro.Python.Ints.{pos}
use fastavro.Python.Text.{text, eq_text}
use fastavro.Datum.{Datum, str, int, list, dict, nil, cons, entry, no_entries}
use fastavro.Schema.{
  contains_text, before_last_dot, Schema, Flavour, Primitive, prim, ref, union, enum, record_schema,
  also, no_schemas, field, no_fields, NamedSchemas,
}
use fastavro.Parsing.Names.{Parsing, define_name, store, find_named, from_named_schemas}
use fastavro.Parsing.Kinds.{Settings, kind_of, kind_named}
use fastavro.Parsing.Parse.{parse, parse_schema, field_aliases}
use fastavro.Parsing.Properties.{
  parse_name, validate_enum_symbols, parse_aliases, attrs_of, is_distinct,
}
use fastavro.Parsing.Checks.{check_logical_type, check_default, default_matches_primitive}
use fastavro.Parsing.Closed.{IsClosed, Includes, IsSound}
use fastavro.Parsing.TopLevel.{parse_schema-IsClosed}
use fastavro.Parsing.Defined.{defined, IsDistinct}
use fastavro.Parsing.Distinct.{parse-IsDistinct}
use fastavro.Parsing.Ends.{PlatformEnds}
use fastavro.Parsing.Heights.{height}
use fastavro.Parsing.Termination.{parse-Ends}
use fastavro.Parsing.Fingerprint.{rabin_bytes, rabin_fingerprint, empty_64}
use fastavro.Parsing.Fingerprint.Rabin.{rabin_bytes_lem, fingerprint_by_bits}
use fastavro.Parsing.Standard.{standard, print, canonical_lem}
use fastavro.Parsing.Canonical.{canonical, to_parsing_canonical_form}
use fastavro.Tests.Samples.{platform, no_attrs}

abbrev node_datum : Datum
node_datum = dict (
    entry (text "type") (str (text "record")) (
      entry (text "name") (str (text "Node")) (
        entry (text "namespace") (str (text "a.b")) (
          entry (text "fields")
            (list (
              cons
                (dict (
                  entry (text "name") (str (text "value")) (
                    entry (text "type") (str (text "int"))
                      (entry (text "default") (int (pos 0)) no_entries))))
                (cons
                  (dict (
                    entry (text "name") (str (text "kind")) (
                      entry (text "type")
                        (dict (
                          entry (text "type") (str (text "enum")) (
                            entry (text "name") (str (text "Kind")) (
                              entry (text "symbols")
                                (list (cons (str (text "X")) (cons (str (text "Y")) nil)))
                                no_entries))))
                        no_entries)))
                  (cons
                    (dict (
                      entry (text "name") (str (text "next")) (
                        entry (text "type")
                          (list (cons (str (text "null")) (cons (str (text "Node")) nil)))
                          no_entries)))
                    nil))))
            no_entries))))

abbrev kind_schema : Schema
kind_schema = enum no_attrs (text "a.b.Kind") [] (text "X" ∷ text "Y" ∷ []) none

abbrev node_schema : Schema
node_schema = record_schema no_attrs Flavour.plain (text "a.b.Node") [] (
    field (text "value") (prim Primitive.int) (some (int (pos 0))) [] (
      field (text "kind") kind_schema none [] (
        field (text "next")
          (union (also (prim Primitive.null) (also (ref (text "a.b.Node")) no_schemas))) none []
          no_fields)))

abbrev settings : Settings
settings = record { platform = platform; expand = false; ignore_default_error = false }

abbrev node_names : NamedSchemas
node_names = (text "a.b.Node", node_schema) ∷ (text "a.b.Kind", kind_schema) ∷ []

node_parsed : parse_schema 9 false settings node_datum [] ≡ ok (node_schema, node_names)
unfolding parse_schema eq_text check_logical_type kind_of kind_named parse_name define_name
    contains_text check_default field_aliases default_matches_primitive store before_last_dot
    validate_enum_symbols parse_aliases find_named attrs_of
node_parsed = refl

canonical_test :
    to_parsing_canonical_form 9 platform node_datum
    ≡ ok (
        text
          "{\"name\":\"a.b.Node\",\"type\":\"record\",\"fields\":[{\"name\":\"value\",\"type\":\"int\"},{\"name\":\"kind\",\"type\":{\"name\":\"a.b.Kind\",\"type\":\"enum\",\"symbols\":[\"X\",\"Y\"]}},{\"name\":\"next\",\"type\":[\"null\",\"a.b.Node\"]}]}")
unfolding to_parsing_canonical_form parse_schema eq_text check_logical_type kind_of kind_named
    parse_name define_name contains_text check_default field_aliases default_matches_primitive store
    before_last_dot validate_enum_symbols parse_aliases find_named attrs_of
canonical_test = refl

fingerprint_test : rabin_fingerprint (text "\"int\"") ≡ ok (text "8f5c393f1ad57572")
unfolding rabin_fingerprint
fingerprint_test = refl

empty_IsSound : IsSound (from_named_schemas [])
unfolding from_named_schemas find_named
empty_IsSound name s h = absurd cc

parse_schema-IsClosed_example :
    IsClosed (from_named_schemas node_names) node_schema
    × Includes (from_named_schemas []) (from_named_schemas node_names)
    × IsSound (from_named_schemas node_names)
parse_schema-IsClosed_example =
    parse_schema-IsClosed 9 false settings node_datum [] node_names node_schema empty_IsSound
      node_parsed

abbrev start : Parsing
start = record { names = []; named = [] }

abbrev end : Parsing
end = record {
  names = text "a.b.Node" ∷ text "a.b.Kind" ∷ [];
  named = (text "a.b.Node", some node_schema) ∷ (text "a.b.Kind", some kind_schema) ∷ [];
}

node_parse : parse 8 settings [] node_datum none start ≡ ok (node_schema, end)
unfolding parse eq_text check_logical_type kind_of kind_named parse_name define_name contains_text
    check_default field_aliases default_matches_primitive store before_last_dot
    validate_enum_symbols parse_aliases find_named attrs_of
node_parse = refl

IsDistinct-start : IsDistinct []
unfolding is_distinct
IsDistinct-start = refl

parse-IsDistinct_example :
    ((text "a.b.Node" ∷ text "a.b.Kind" ∷ []) ≡ [] ++ defined node_schema)
    × IsDistinct ([] ++ defined node_schema)
parse-IsDistinct_example =
    parse-IsDistinct 8 settings [] node_datum none start end node_schema refl IsDistinct-start
      node_parse

platform_PlatformEnds : PlatformEnds platform
unfolding Ends
platform_PlatformEnds = ((λ s. tt), (λ s digits e. tt))

node_height : height node_datum < 8
unfolding height
node_height = omega arith

parse-Ends_example : Ends (parse 8 settings [] node_datum none start)
parse-Ends_example =
    parse-Ends 8 settings [] node_datum none start platform_PlatformEnds node_height

rabin_bytes_lem_example :
    rabin_bytes empty_64 (34 ∷ 255 ∷ []) ≡ ok (fingerprint_by_bits empty_64 (34 ∷ 255 ∷ []))
rabin_bytes_lem_example = rabin_bytes_lem empty_64 (34 ∷ 255 ∷ []) (omega arith, (omega arith, tt))

canonical_lem_example : canonical node_schema ≡ print (standard node_schema) []
canonical_lem_example = canonical_lem node_schema
