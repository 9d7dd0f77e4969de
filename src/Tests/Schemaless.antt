-- ===== src/Tests/Schemaless.antt =====
-- One value of a schema that is given by its name, written and read without a header.
use fastavro.Prelude.{[], ◌∷◌, ◌++◌, ◌≡◌, refl, none, true, arith}
use fastavro.Python.Errors.{ok, wrote, output}
use fastavro.Python.Ints.{pos}
use fastavro.Python.Text.{text, eq_text}
use fastavro.Datum.{Datum, str, int, dict, entry, no_entries}
use fastavro.Schema.{Primitive, prim, extract_logical_type, contains_text, before_last_dot}
use fastavro.Context.{default_read_options, default_write_options}
use fastavro.Parsing.Names.{define_name, store, find_named}
use fastavro.Parsing.Kinds.{kind_of, kind_named}
use fastavro.Parsing.Parse.{parse_schema, field_aliases}
use fastavro.Parsing.Properties.{parse_name, validate_enum_symbols, parse_aliases, attrs_of}
use fastavro.Parsing.Checks.{check_logical_type, check_default, default_matches_primitive}
use fastavro.RoundTrip.Primitives.{FitsPrimitive}
use fastavro.RoundTrip.Fits.{Fits}
use fastavro.Schemaless.{parsed, write_context, schemaless_writer, schemaless_reader, eq_datum}
use fastavro.Schemaless.Delivery.{schemaless_reader-schemaless_writer}
use fastavro.Tests.Samples.{platform}

long_parsed : parsed 4 platform (str (text "long")) ≡ ok (prim Primitive.long, [])
unfolding parsed parse_schema eq_text check_logical_type kind_of kind_named parse_name define_name
    contains_text check_default field_aliases default_matches_primitive store before_last_dot
    validate_enum_symbols parse_aliases find_named attrs_of
long_parsed = refl

five-Fits :
    Fits 4
      (write_context (λ t. none) platform [])
      default_write_options
      (int (pos 5))
      (prim Primitive.long)
unfolding extract_logical_type
five-Fits = (refl, FitsPrimitive.long (pos 5) (omega arith))

abbrev one_two : Datum
one_two = dict (entry (text "a") (int (pos 1)) (entry (text "b") (int (pos 2)) no_entries))

abbrev two_one : Datum
two_one = dict (entry (text "b") (int (pos 2)) (entry (text "a") (int (pos 1)) no_entries))

eq_datum_test : eq_datum one_two two_one ≡ true
unfolding eq_datum eq_text
eq_datum_test = refl

schemaless_reader-schemaless_writer_example :
    (schemaless_writer 4
        (λ t. none)
        platform
        default_write_options
        (str (text "long"))
        (int (pos 5))
      ≡ wrote (
          output (
            schemaless_writer 4
              (λ t. none)
              platform
              default_write_options
              (str (text "long"))
              (int (pos 5)))))
    × (schemaless_reader 4
          (λ t. none)
          platform
          default_read_options
          (str (text "long"))
          none
          (output (
              schemaless_writer 4
                (λ t. none)
                platform
                default_write_options
                (str (text "long"))
                (int (pos 5)))
            ++ 1 ∷ [])
        ≡ ok (int (pos 5), 1 ∷ []))
schemaless_reader-schemaless_writer_example =
    schemaless_reader-schemaless_writer 4 (λ t. none) (λ t. none) platform default_write_options
      (str (text "long")) (int (pos 5)) (prim Primitive.long) [] (1 ∷ []) long_parsed five-Fits
