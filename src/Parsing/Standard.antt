-- ===== src/Parsing/Standard.antt =====
-- The parsing canonical form as the Avro specification gives it, by its rules on the JSON value of a
-- schema, against the code that writes it (fastavro/_schema_py.py).
use fastavro.Prelude.{ℕ, List, [], ◌∷◌, ◌++◌, append_assoc, append-nil, ◌≡◌, refl, sym, ap, ◌∙◌}
use fastavro.Python.Text.{Text, text}
use fastavro.Schema.{
  Schema, Schemas, Fields, prim, ref, union, annotated, array, map, fixed, enum, record_schema,
  no_schemas, also, no_fields, field, primitive_text,
}
use fastavro.Parsing.Canonical.{
  canonical, canonical_schemas, canonical_fields, canonical_field, quoted, symbols_text,
  number_text,
}

-- A JSON value of strings, naturals, arrays and objects.
mutual
  pub data Json : Type 0 where
    string : Text → Json
    number : ℕ → Json
    elements : Jsons → Json
    object : Members → Json

  pub data Jsons : Type 0 where
    no_more : Jsons
    next : Json → Jsons → Jsons

  pub data Members : Type 0 where
    no_members : Members
    member : Text → Json → Members → Members

-- The rules [STRIP] and [ORDER]: of a schema in braces stay `name`, `type`, `fields`, `symbols`,
-- `items`, `values` and `size`, in this order; by [PRIMITIVES] a primitive type is its name, and by
-- [FULLNAMES], which the parse has followed, names are full. An error is a record.
abbrev strings : List Text → Jsons
strings [] = no_more
strings (t ∷ ts) = next (string t) (strings ts)

abbrev typed : Text → Members → Members
typed type ms = member (text "type") (string type) ms

abbrev named : Text → Text → Members → Json
named name type ms = object (member (text "name") (string name) (typed type ms))

abbrev standard_field : Text → Json → Json
standard_field name type =
    object (member (text "name") (string name) (member (text "type") type no_members))

unfoldable mutual
  pub standard : Schema → Json
  standard (prim p) = string (primitive_text p)
  standard (ref name) = string name
  standard (union ss) = elements (standard_schemas ss)
  standard (annotated p a) = string (primitive_text p)
  standard (array a s) =
      object (typed (text "array") (member (text "items") (standard s) no_members))
  standard (map a s) = object (typed (text "map") (member (text "values") (standard s) no_members))
  standard (enum a name aliases symbols default) =
      named name (text "enum") (member (text "symbols") (elements (strings symbols)) no_members)
  standard (fixed a name aliases size) =
      named name (text "fixed") (member (text "size") (number size) no_members)
  standard (record_schema a f name aliases fs) =
      named name (text "record") (member (text "fields") (elements (standard_fields fs)) no_members)

  standard_schemas : Schemas → Jsons
  standard_schemas no_schemas = no_more
  standard_schemas (also s ss) = next (standard s) (standard_schemas ss)

  standard_fields : Fields → Jsons
  standard_fields no_fields = no_more
  standard_fields (field name s default aliases fs) =
      next (standard_field name (standard s)) (standard_fields fs)

-- A JSON value, printed before a text without any white space; strings stand as they are.
abbrev print_string : Text → Text → Text
print_string t rest = b'"' ∷ (t ++ b'"' ∷ rest)

unfoldable mutual
  pub print : Json → Text → Text
  print (string t) rest = print_string t rest
  print (number n) rest = number_text n ++ rest
  print (elements js) rest = b'[' ∷ print_elements js (b']' ∷ rest)
  print (object ms) rest = b'{' ∷ print_members ms (b'}' ∷ rest)

  print_elements : Jsons → Text → Text
  print_elements no_more rest = rest
  print_elements (next j no_more) rest = print j rest
  print_elements (next j (next k js)) rest = print j (b',' ∷ print_elements (next k js) rest)

  print_members : Members → Text → Text
  print_members no_members rest = rest
  print_members (member key j no_members) rest = print_string key (b':' ∷ print j rest)
  print_members (member key j (member other k ms)) rest =
      print_string key (b':' ∷ print j (b',' ∷ print_members (member other k ms) rest))

-- A text in two parts, before another.
put : (a z rest out : Text) → a ++ (z ++ rest) ≡ out → (a ++ z) ++ rest ≡ out
put a z rest out e = append_assoc a z rest ∙ e

-- What `canonical` and its parts write before a text.
string-print : (t rest : Text) → (b'"' ∷ (t ++ text "\"")) ++ rest ≡ print_string t rest
string-print t rest = ap (λ s. b'"' ∷ s) (append_assoc t (text "\"") rest)

symbols-print :
    (symbols : List Text) (rest : Text)
    → symbols_text symbols ++ rest ≡ print_elements (strings symbols) rest
unfolding symbols_text print
symbols-print [] rest = refl
symbols-print (t ∷ []) rest = string-print t rest
symbols-print (t ∷ u ∷ ts) rest =
    put (quoted t) (b',' ∷ symbols_text (u ∷ ts)) rest _
      (string-print t _ ∙ ap (λ s. print_string t (b',' ∷ s)) (symbols-print (u ∷ ts) rest))

field-print :
    (name type : Text) (j : Json) (rest : Text)
    → type ++ (b'}' ∷ rest) ≡ print j (b'}' ∷ rest)
    → canonical_field name type ++ rest ≡ print (standard_field name j) rest
unfolding print
field-print name type j rest e =
    ap (λ t. text "{\"name\":\"" ++ t)
      (put name _ rest _
        (ap (λ t. name ++ (text "\",\"type\":" ++ t)) (put type (text "}") rest _ e)))

mutual
  unfolding canonical standard print

  schema-print : (s : Schema) (rest : Text) → canonical s ++ rest ≡ print (standard s) rest
  schema-print (prim p) rest = string-print (primitive_text p) rest
  schema-print (ref name) rest = string-print name rest
  schema-print (union ss) rest =
      ap (λ t. b'[' ∷ t)
        (put (canonical_schemas ss) (text "]") rest _ (schemas-print ss (b']' ∷ rest)))
  schema-print (annotated p a) rest = string-print (primitive_text p) rest
  schema-print (array a s) rest =
      ap (λ t. text "{\"type\":\"array\",\"items\":" ++ t)
        (put (canonical s) (text "}") rest _ (schema-print s (b'}' ∷ rest)))
  schema-print (map a s) rest =
      ap (λ t. text "{\"type\":\"map\",\"values\":" ++ t)
        (put (canonical s) (text "}") rest _ (schema-print s (b'}' ∷ rest)))
  schema-print (enum a name aliases symbols default) rest =
      ap (λ t. text "{\"name\":\"" ++ t)
        (put name _ rest _ (
          ap (λ t. name ++ (text "\",\"type\":\"enum\",\"symbols\":[" ++ t))
            (put (symbols_text symbols) (text "]}") rest _
              (symbols-print symbols (text "]}" ++ rest)))))
  schema-print (fixed a name aliases size) rest =
      ap (λ t. text "{\"name\":\"" ++ t)
        (put name _ rest _ (
          ap (λ t. name ++ (text "\",\"type\":\"fixed\",\"size\":" ++ t))
            (put (number_text size) (text "}") rest _ (refl))))
  schema-print (record_schema a f name aliases fs) rest =
      ap (λ t. text "{\"name\":\"" ++ t)
        (put name _ rest _ (
          ap (λ t. name ++ (text "\",\"type\":\"record\",\"fields\":[" ++ t))
            (put (canonical_fields fs) (text "]}") rest _ (fields-print fs (text "]}" ++ rest)))))

  schemas-print :
      (ss : Schemas) (rest : Text)
      → canonical_schemas ss ++ rest ≡ print_elements (standard_schemas ss) rest
  schemas-print no_schemas rest = refl
  schemas-print (also s no_schemas) rest = schema-print s rest
  schemas-print (also s (also t ss)) rest =
      put (canonical s) (b',' ∷ canonical_schemas (also t ss)) rest _ (
        schema-print s _ ∙ ap (λ t. print (standard s) (b',' ∷ t)) (schemas-print (also t ss) rest))

  fields-print :
      (fs : Fields) (rest : Text)
      → canonical_fields fs ++ rest ≡ print_elements (standard_fields fs) rest
  fields-print no_fields rest = refl
  fields-print (field name s default aliases no_fields) rest =
      field-print name (canonical s) (standard s) rest (schema-print s (b'}' ∷ rest))
  fields-print (field name s default aliases (field other t d names fs)) rest =
      put (canonical_field name (canonical s)) (b',' ∷ canonical_fields (field other t d names fs))
        rest _
        (field-print name (canonical s) (standard s) _ (schema-print s _)
          ∙ ap (λ t. print (standard_field name (standard s)) (b',' ∷ t))
              (fields-print (field other t d names fs) rest))

-- The canonical form that is written for a parsed schema is the JSON value that the rules of the Avro
-- specification make of it, printed without white space and with its strings as they stand: names,
-- symbols and sizes are all there, and logical types, aliases and defaults are not.
pub canonical_lem : (s : Schema) → canonical s ≡ print (standard s) []
canonical_lem s = sym (append-nil (canonical s)) ∙ schema-print s []
