-- ===== src/Parsing/Kinds.antt =====
-- What a schema that is to be parsed is, by its text or its property `type`, and what a name stands for
-- (`_parse_schema` of fastavro/_schema_py.py).
use fastavro.Prelude.{Bool, true, false, [], ◌++◌, if◌then◌else◌, Option, none, some}
use fastavro.Python.Errors.{Result, ok, err, bind, type_error, unknown_type}
use fastavro.Python.Text.{Text, text, eq_text}
use fastavro.Datum.{Datum, str, list, dict, Items, nil, cons, Platform}
use fastavro.Schema.{
  Schema, Schemas, Primitive, Flavour, prim, ref, no_schemas, also, before_last_dot,
}
use fastavro.Parsing.Names.{find_named, Parsing}
use fastavro.Parsing.Checks.{default_matches_primitive, default_matches_schema, check_default}

pub record Settings : Type 0 where
  pub platform : Platform
  pub expand : Bool
  pub ignore_default_error : Bool

-- A parse of a schema in a namespace, with the default of the field that it is the type of.
abbrev pub Parser : Type 0
Parser = Text → Datum → Option Datum → Parsing → Result (Schema × Parsing)

-- What the text of a schema or of its property `type` says.
unfoldable pub primitive_named : Text → Option Primitive
primitive_named t =
    if eq_text t (text "boolean")
    then some Primitive.boolean
    else if eq_text t (text "bytes")
    then some Primitive.bytes
    else if eq_text t (text "double")
    then some Primitive.double
    else if eq_text t (text "float")
    then some Primitive.float
    else if eq_text t (text "int")
    then some Primitive.int
    else if eq_text t (text "long")
    then some Primitive.long
    else if eq_text t (text "null")
    then some Primitive.null
    else if eq_text t (text "string")
    then some Primitive.string
    else none

pub data Kind : Type 0 where
  array_kind map_kind enum_kind fixed_kind : Kind
  record_kind : Flavour → Kind
  primitive_kind : Primitive → Kind

unfoldable pub kind_named : Text → Result Kind
unfolding primitive_named
kind_named t =
    if eq_text t (text "array")
    then ok array_kind
    else if eq_text t (text "map")
    then ok map_kind
    else if eq_text t (text "enum")
    then ok enum_kind
    else if eq_text t (text "fixed")
    then ok fixed_kind
    else if eq_text t (text "record")
    then ok (record_kind Flavour.plain)
    else if eq_text t (text "error")
    then ok (record_kind Flavour.error)
    else elim (primitive_named t) [ none ↦ err (unknown_type t) | some p ↦ ok (primitive_kind p) ]

-- `schema_type in PRIMITIVES` is a type error for a list or a dict.
unfoldable pub kind_of : Datum → Result Kind
kind_of (str t) = kind_named t
kind_of (list ds) = err type_error
kind_of (dict es) = err type_error
kind_of d = err (unknown_type [])

-- The schemas of a union, one after the other.
unfoldable pub parse_union :
    (Datum → Parsing → Result (Schema × Parsing)) → Items → Parsing → Result (Schemas × Parsing)
parse_union parse nil st = ok (no_schemas, st)
parse_union parse (cons d ds) st =
    bind (parse d st)
      (λ (s, st'). bind (parse_union parse ds st') (λ (ss, st''). ok (also s ss, st'')))

-- `for s in parsed_schemas: if _default_matches_schema(default, s): break`
unfoldable pub matches_any : Platform → Schemas → Datum → Result Bool
matches_any py no_schemas d = ok false
matches_any py (also s ss) d =
    bind (default_matches_schema py d s)
      (λ (fits : Bool). if fits then ok true else matches_any py ss d)

-- `if "." not in schema and namespace: schema = namespace + "." + schema`
unfoldable pub qualify : Text → Text → Text
qualify ns name = elim (before_last_dot name) [
  | some qualifier ↦ name
  | none ↦ if eq_text ns [] then name else ns ++ (text "." ++ name)
]

-- What a name that is known stands for in the parsed schema.
unfoldable pub expansion : Bool → Text → Option Schema → Schema
expansion expand name none = ref name
expansion expand name (some s) = if expand then s else ref name

-- `if schema not in named_schemas: raise UnknownType(schema)`
unfoldable pub look_up : Bool → Text → Option (Option Schema) → Result Schema
unfolding expansion
look_up expand name none = err (unknown_type name)
look_up expand name (some s) = ok (expansion expand name s)

unfoldable pub parse_text :
    Settings → Text → Option Primitive → Option Datum → Parsing → Result (Schema × Parsing)
unfolding look_up
parse_text cfg name (some p) default st =
    bind
      (check_default cfg.ignore_default_error default
        (λ d. default_matches_primitive cfg.platform d p))
      (λ _. ok (prim p, st))
parse_text cfg name none default st =
    bind (look_up cfg.expand name (find_named name st.named)) (λ s. ok (s, st))

-- A schema that is a string.
unfoldable pub parse_name_of_type :
    Settings → Text → Text → Option Datum → Parsing → Result (Schema × Parsing)
unfolding qualify parse_text
parse_name_of_type cfg ns t default st =
    parse_text cfg (qualify ns t) (primitive_named t) default st
