-- ===== src/Schema.antt =====
-- Parsed schemas, as `parse_schema` returns them, and what the readers and writers ask of them
-- (fastavro/_schema_py.py, fastavro/const.py).
use fastavro.Prelude.{
  ℕ, zero, suc, ◌+◌, Bool, true, false, ◌||◌, List, [], ◌∷◌, ◌++◌, ◌==◌, if◌then◌else◌, Option,
  none, some,
}
use fastavro.Python.Text.{Text, text, eq_text}
use fastavro.Datum.{Datum}

pub data Primitive : Type 0 where
  null boolean string int long float double bytes : Primitive

-- The properties of a schema in braces that logical types look at.
pub record Attrs : Type 0 where
  pub logical_type : Option Text
  pub scale : Option ℕ
  pub precision : Option ℕ

pub data Flavour : Type 0 where
  plain error : Flavour

-- A string is a primitive or the full name of a named type; a list is a union; a dictionary is one
-- of the rest, `annotated` for a primitive. A field has a name, a type, a default and aliases.
mutual
  pub data Schema : Type 0 where
    prim : Primitive → Schema
    ref : Text → Schema
    union : Schemas → Schema
    annotated : Primitive → Attrs → Schema
    array : Attrs → Schema → Schema
    map : Attrs → Schema → Schema
    fixed : Attrs → Text → List Text → ℕ → Schema
    enum : Attrs → Text → List Text → List Text → Option Text → Schema
    record_schema : Attrs → Flavour → Text → List Text → Fields → Schema

  pub data Schemas : Type 0 where
    no_schemas : Schemas
    also : Schema → Schemas → Schemas

  pub data Fields : Type 0 where
    no_fields : Fields
    field : Text → Schema → Option Datum → List Text → Fields → Fields

-- The string that `extract_record_type` gives: a name of Avro's or any other.
pub data TypeName : Type 0 where
  primitive : Primitive → TypeName
  union array map fixed enum record_type error_type : TypeName
  named : Text → TypeName

abbrev pub flavour_name : Flavour → TypeName
flavour_name plain = record_type
flavour_name error = error_type

unfoldable pub extract_record_type : Schema → TypeName
extract_record_type (prim p) = primitive p
extract_record_type (ref name) = named name
extract_record_type (union ss) = union
extract_record_type (annotated p a) = primitive p
extract_record_type (array a s) = array
extract_record_type (map a s) = map
extract_record_type (fixed a name aliases size) = fixed
extract_record_type (enum a name aliases symbols default) = enum
extract_record_type (record_schema a f name aliases fs) = flavour_name f

abbrev pub primitive_text : Primitive → Text
primitive_text null = text "null"
primitive_text boolean = text "boolean"
primitive_text string = text "string"
primitive_text int = text "int"
primitive_text long = text "long"
primitive_text float = text "float"
primitive_text double = text "double"
primitive_text bytes = text "bytes"

abbrev pub type_text : TypeName → Text
type_text (primitive p) = primitive_text p
type_text union = text "union"
type_text array = text "array"
type_text map = text "map"
type_text fixed = text "fixed"
type_text enum = text "enum"
type_text record_type = text "record"
type_text error_type = text "error"
type_text (named name) = name

-- `f"{rt}-{lt}"`, if the schema has a logical type that is not empty.
abbrev pub attrs : Schema → Option Attrs
attrs (annotated p a) = some a
attrs (array a s) = some a
attrs (map a s) = some a
attrs (fixed a name aliases size) = some a
attrs (enum a name aliases symbols default) = some a
attrs (record_schema a f name aliases fs) = some a
attrs _ = none

abbrev logical_name : Text → Option Text → Option Text
logical_name rt none = none
logical_name rt (some []) = none
logical_name rt (some (c ∷ lt)) = some (rt ++ (text "-" ++ (c ∷ lt)))

unfoldable pub extract_logical_type : Schema → Option Text
unfolding extract_record_type
extract_logical_type s = elim (attrs s) [
  | none ↦ none
  | some a ↦ logical_name (type_text (extract_record_type s)) a.logical_type
]

-- `NAMED_TYPES` and `AVRO_TYPES`.
abbrev pub is_named_type : TypeName → Bool
is_named_type record_type = true
is_named_type enum = true
is_named_type fixed = true
is_named_type error_type = true
is_named_type _ = false

abbrev pub is_avro_type : TypeName → Bool
is_avro_type (named name) = false
is_avro_type _ = true

-- `schema["name"]` of a named type.
abbrev pub name? : Schema → Option Text
name? (fixed a name aliases size) = some name
name? (enum a name aliases symbols default) = some name
name? (record_schema a f name aliases fs) = some name
name? _ = none

abbrev pub aliases? : Schema → List Text
aliases? (fixed a name aliases size) = aliases
aliases? (enum a name aliases symbols default) = aliases
aliases? (record_schema a f name aliases fs) = aliases
aliases? _ = []

unfoldable pub contains_text : Text → List Text → Bool
contains_text t [] = false
contains_text t (s ∷ ss) = eq_text s t || contains_text t ss

abbrev pub has_field : Text → Fields → Bool
has_field t no_fields = false
has_field t (field name s default aliases fs) = eq_text name t || has_field t fs

-- The dictionary of named types.
abbrev pub NamedSchemas : Type 0
NamedSchemas = List (Text × Schema)

unfoldable pub find_schema : Text → NamedSchemas → Option Schema
find_schema name [] = none
find_schema name ((n, s) ∷ rest) = if eq_text n name then some s else find_schema name rest

abbrev pub get_schema : Schemas → ℕ → Option Schema
get_schema no_schemas i = none
get_schema (also s ss) zero = some s
get_schema (also s ss) (suc i) = get_schema ss i

abbrev pub count_schemas : Schemas → ℕ
count_schemas no_schemas = 0
count_schemas (also s ss) = suc (count_schemas ss)

-- `_get_name_and_record_counts_from_union`: the named types and the records.
abbrev counted : TypeName → ℕ × ℕ
counted record_type = (1, 1)
counted enum = (1, 0)
counted fixed = (1, 0)
counted (named name) = (1, 1)
counted _ = (0, 0)

unfoldable pub name_and_record_counts : Schemas → ℕ × ℕ
name_and_record_counts no_schemas = (0, 0)
name_and_record_counts (also s ss) =
    let (names, records) = name_and_record_counts ss in
    let (n, r) = counted (extract_record_type s) in (n + names, r + records)

unfoldable pub is_single_record_union : Schemas → Bool
is_single_record_union ss = (name_and_record_counts ss).1 == 1

unfoldable pub is_single_name_union : Schemas → Bool
is_single_name_union ss = (name_and_record_counts ss).0 == 1

-- `schema_name`: the namespace and the full name, from the name, the property `namespace` if it is
-- there, and the namespace around the schema. The text before the last dot is `rsplit(".", 1)[0]`.
unfoldable pub before_last_dot : Text → Option Text
before_last_dot [] = none
before_last_dot (c ∷ s) = elim (before_last_dot s) [
  | some t ↦ some (c ∷ t)
  | none ↦ if c == b'.' then some [] else none
]

unfoldable pub schema_name : Text → Option Text → Text → Text × Text
schema_name name namespace parent_ns =
    let ns : Text = elim namespace [ none ↦ parent_ns | some n ↦ n ] in
    elim (before_last_dot name) [
      | some qualifier ↦ (qualifier, name)
      | none ↦ if eq_text ns [] then ([], name) else (ns, ns ++ (text "." ++ name))
    ]
