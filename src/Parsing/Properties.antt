-- ===== src/Parsing/Properties.antt =====
-- The properties of a schema as a parse reads them: attributes, names, aliases and symbols
-- (`_parse_schema`, `schema_name` and `_validate_enum_symbols` of fastavro/_schema_py.py). A property
-- that is kept without being looked at is expected to be of the kind that Avro prescribes.
use fastavro.Prelude.{
  ℕ, Bool, true, false, not, ◌&&◌, ◌||◌, List, [], ◌∷◌, ◌==◌, leb, if◌then◌else◌, Option, none,
  some,
}
use fastavro.Python.Errors.{
  Result, ok, err, bind, from_option, type_error, key_error, schema_parse_error,
}
use fastavro.Python.Text.{Text, text}
use fastavro.Datum.{Datum, null, str, list, Items, nil, cons, Entries, get, iterate}
use fastavro.Schema.{Attrs, contains_text, schema_name}
use fastavro.Parsing.Checks.{natural?}

-- The properties that logical types look at.
abbrev text? : Option Datum → Option Text
text? (some (str s)) = some s
text? d = none

abbrev number? : Option Datum → Option ℕ
number? none = none
number? (some d) = natural? d

unfoldable pub attrs_of : Entries → Attrs
attrs_of es = record {
  logical_type = text? (get (text "logicalType") es);
  scale = number? (get (text "scale") es);
  precision = number? (get (text "precision") es);
}

abbrev pub text_of : Datum → Result Text
text_of (str s) = ok s
text_of d = err type_error

unfoldable pub texts_of : Items → Result (List Text)
texts_of nil = ok []
texts_of (cons d ds) = bind (text_of d) (λ s. bind (texts_of ds) (λ ss. ok (s ∷ ss)))

unfoldable pub list_of : Datum → Result (List Text)
unfolding texts_of
list_of (list ds) = texts_of ds
list_of d = err type_error

unfoldable pub parse_aliases : Entries → Result (List Text)
unfolding texts_of
parse_aliases es = elim (get (text "aliases") es) [ none ↦ ok [] | some d ↦ list_of d ]

-- The namespace of a schema is a text, or null for none.
abbrev pub namespace_of : Option Datum → Result (Option Text)
namespace_of none = ok none
namespace_of (some null) = ok (some [])
namespace_of (some d) = bind (text_of d) (λ s. ok (some s))

-- `schema_name(schema, namespace)`
unfoldable pub parse_name : Text → Entries → Result (Text × Text)
unfolding schema_name
parse_name parent_ns es = bind (from_option schema_parse_error (get (text "name") es)) (λ d.
    bind (text_of d) (λ name.
      bind (namespace_of (get (text "namespace") es)) (λ ns. ok (schema_name name ns parent_ns))))

-- `SYMBOL_REGEX.fullmatch(symbol)`
abbrev pub is_letter : ℕ → Bool
is_letter c = (leb 65 c && leb c 90) || ((leb 97 c && leb c 122) || (c == 95))

abbrev pub is_word : Text → Bool
is_word [] = true
is_word (c ∷ s) = (is_letter c || (leb 48 c && leb c 57)) && is_word s

unfoldable pub is_symbol : Text → Bool
is_symbol [] = false
is_symbol (c ∷ s) = is_letter c && is_word s

unfoldable pub parse_symbols : Items → Result (List Text)
unfolding is_symbol
parse_symbols nil = ok []
parse_symbols (cons (str s) ds) =
    let rest = parse_symbols ds in
    if is_symbol s then bind rest (λ ss. ok (s ∷ ss)) else err schema_parse_error
parse_symbols (cons d ds) = err schema_parse_error

unfoldable pub is_distinct : List Text → Bool
is_distinct [] = true
is_distinct (s ∷ ss) = not (contains_text s ss) && is_distinct ss

abbrev pub check_symbol : Option Datum → List Text → Result (Option Text)
check_symbol none symbols = ok none
check_symbol (some (str s)) symbols =
    if contains_text s symbols then ok (some s) else err schema_parse_error
check_symbol (some d) symbols = err schema_parse_error

-- `_validate_enum_symbols`, with the symbols and the default that it lets pass.
unfoldable pub validate_enum_symbols : Entries → Result (List Text × Option Text)
unfolding parse_symbols is_distinct
validate_enum_symbols es = bind (from_option key_error (get (text "symbols") es)) (λ d.
    bind (iterate d) (λ ds. bind (parse_symbols ds) (λ symbols.
      if is_distinct symbols
      then bind (check_symbol (get (text "default") es) symbols) (λ default. ok (symbols, default))
      else err schema_parse_error)))
