-- ===== src/Parsing/Canonical.antt =====
-- `to_parsing_canonical_form` and `_to_parsing_canonical_form` (fastavro/_schema_py.py), by the text that
-- is written to `fo`.
use fastavro.Prelude.{ℕ, ◌+◌, false, List, [], ◌∷◌, ◌++◌, map as map_list}
use fastavro.Python.Errors.{Result, ok, bind}
use fastavro.Python.Text.{Text, text}
use fastavro.Datum.{Datum, Platform}
use fastavro.Schema.{
  Schema, Schemas, Fields, prim, ref, union, annotated, array, map, fixed, enum, record_schema,
  no_schemas, also, no_fields, field, primitive_text,
}
use fastavro.Logical.Digits.{decimal_digits}
use fastavro.Parsing.Kinds.{Settings}
use fastavro.Parsing.Parse.{parse_schema}

-- `f'"{name}"'`
abbrev pub quoted : Text → Text
quoted name = text "\"" ++ (name ++ text "\"")

-- `str(n)`
abbrev pub number_text : ℕ → Text
number_text n = map_list (λ d. 48 + d) (decimal_digits n)

unfoldable pub symbols_text : List Text → Text
symbols_text [] = []
symbols_text (symbol ∷ []) = quoted symbol
symbols_text (symbol ∷ other ∷ symbols) =
    quoted symbol ++ (text "," ++ symbols_text (other ∷ symbols))

abbrev pub canonical_field : Text → Text → Text
canonical_field name type =
    text "{\"name\":\"" ++ (name ++ (text "\",\"type\":" ++ (type ++ text "}")))

unfoldable mutual
  unfolding symbols_text

  pub canonical : Schema → Text
  canonical (prim p) = quoted (primitive_text p)
  canonical (ref name) = quoted name
  canonical (union ss) = text "[" ++ (canonical_schemas ss ++ text "]")
  canonical (annotated p a) = quoted (primitive_text p)
  canonical (array a s) = text "{\"type\":\"array\",\"items\":" ++ (canonical s ++ text "}")
  canonical (map a s) = text "{\"type\":\"map\",\"values\":" ++ (canonical s ++ text "}")
  canonical (enum a name aliases symbols default) =
      text "{\"name\":\""
      ++ (name
          ++ (text "\",\"type\":\"enum\",\"symbols\":[" ++ (symbols_text symbols ++ text "]}")))
  canonical (fixed a name aliases size) =
      text "{\"name\":\""
      ++ (name ++ (text "\",\"type\":\"fixed\",\"size\":" ++ (number_text size ++ text "}")))
  canonical (record_schema a f name aliases fs) =
      text "{\"name\":\""
      ++ (name
          ++ (text "\",\"type\":\"record\",\"fields\":[" ++ (canonical_fields fs ++ text "]}")))

  pub canonical_schemas : Schemas → Text
  canonical_schemas no_schemas = []
  canonical_schemas (also s no_schemas) = canonical s
  canonical_schemas (also s (also t ss)) =
      canonical s ++ (text "," ++ canonical_schemas (also t ss))

  pub canonical_fields : Fields → Text
  canonical_fields no_fields = []
  canonical_fields (field name s default aliases no_fields) = canonical_field name (canonical s)
  canonical_fields (field name s default aliases (field other t d names fs)) =
      canonical_field name (canonical s)
      ++ (text "," ++ canonical_fields (field other t d names fs))

unfoldable pub to_parsing_canonical_form : ℕ → Platform → Datum → Result Text
unfolding canonical
to_parsing_canonical_form depth py d =
    let cfg : Settings = record { platform = py; expand = false; ignore_default_error = false } in
    bind (parse_schema depth false cfg d []) (λ r. ok (canonical r.0))
