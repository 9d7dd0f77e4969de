-- ===== src/Parsing/Parse.antt =====
-- `_parse_schema`, `parse_field` and `parse_schema` (fastavro/_schema_py.py). A schema that is to be parsed
-- is a value of the kinds that JSON has.
use fastavro.Prelude.{ℕ, zero, suc, Bool, true, false, List, [], if◌then◌else◌, Option, none, some}
use fastavro.Python.Errors.{
  Result, ok, err, bind, from_option, type_error, key_error, schema_parse_error, recursion_error,
}
use fastavro.Python.Text.{Text, text}
use fastavro.Datum.{Datum, str, list, dict, Items, nil, cons, Entries, get, as_dict, iterate}
use fastavro.Schema.{
  Schema, Schemas, Fields, Flavour, union, annotated, array, map, fixed, enum, record_schema,
  no_schemas, also, no_fields, field, NamedSchemas,
}
use fastavro.Parsing.Names.{
  Named, Parsing, define_name, store, from_named_schemas, to_named_schemas,
}
use fastavro.Parsing.Checks.{
  is_str, is_list, is_dict, default_matches_type, check_default, check_logical_type, parse_size,
}
use fastavro.Parsing.Properties.{
  attrs_of, text_of, list_of, parse_aliases, parse_name, validate_enum_symbols,
}
use fastavro.Parsing.Kinds.{
  Settings, Parser, Kind, array_kind, map_kind, enum_kind, fixed_kind, record_kind, primitive_kind,
  kind_of, parse_union, matches_any, parse_name_of_type,
}

abbrev pub no_default : Option Datum
no_default = none

-- `aliases` of a field, which must be a list.
unfoldable pub field_aliases : Entries → Result (List Text)
field_aliases es = elim (get (text "aliases") es) [
  | none ↦ ok []
  | some d ↦ if is_list d then list_of d else err schema_parse_error
]

unfoldable pub parse_field :
    Parser
    → Text
    → Entries
    → Parsing
    → Result ((Text × Schema × Option Datum × List Text) × Parsing)
parse_field parse ns es st = bind (field_aliases es) (λ names.
    bind (from_option key_error (get (text "name") es)) (λ d. bind (text_of d) (λ name.
      bind (from_option key_error (get (text "type") es)) (λ type.
        bind (parse ns type (get (text "default") es) st)
          (λ (s, st'). ok ((name, s, get (text "default") es, names), st'))))))

unfoldable pub parse_fields : Parser → Text → Items → Parsing → Result (Fields × Parsing)
unfolding parse_field
parse_fields parse ns nil st = ok (no_fields, st)
parse_fields parse ns (cons d ds) st = bind (as_dict d) (λ es.
    bind (parse_field parse ns es st) (λ ((name, s, default, aliases), st').
      bind (parse_fields parse ns ds st')
        (λ (fs, st''). ok (field name s default aliases fs, st''))))

-- The branches of `_parse_schema` for a schema in braces. The shared object that `named_schemas` holds
-- from the start is stored again when the record is complete.
unfoldable pub parse_array :
    Settings → Parser → Text → Entries → Option Datum → Parsing → Result (Schema × Parsing)
parse_array cfg parse ns es default st =
    bind (from_option key_error (get (text "items") es)) (λ items.
      bind (parse ns items no_default st) (λ (s, st').
        bind (check_default cfg.ignore_default_error default (λ d. ok (is_list d)))
          (λ _. ok (array (attrs_of es) s, st'))))

unfoldable pub parse_map :
    Settings → Parser → Text → Entries → Option Datum → Parsing → Result (Schema × Parsing)
parse_map cfg parse ns es default st =
    bind (from_option key_error (get (text "values") es)) (λ values.
      bind (parse ns values no_default st) (λ (s, st').
        bind (check_default cfg.ignore_default_error default (λ d. ok (is_dict d)))
          (λ _. ok (map (attrs_of es) s, st'))))

unfoldable pub parse_enum :
    Settings → Text → Entries → Option Datum → Parsing → Result (Schema × Parsing)
parse_enum cfg ns es default st = bind (parse_name ns es) (λ (namespace, fullname).
    bind (define_name fullname st) (λ st'. bind (validate_enum_symbols es) (λ (symbols, symbol).
      bind (check_default cfg.ignore_default_error default (λ d. ok (is_str d))) (λ _.
        bind (parse_aliases es) (λ aliases.
          let s : Schema = enum (attrs_of es) fullname aliases symbols symbol in
          ok (s, store fullname (some s) st'))))))

unfoldable pub parse_fixed :
    Settings → Text → Entries → Option Datum → Parsing → Result (Schema × Parsing)
parse_fixed cfg ns es default st = bind (parse_name ns es) (λ (namespace, fullname).
    bind (define_name fullname st) (λ st'.
      bind (check_default cfg.ignore_default_error default (λ d. ok (is_str d))) (λ _.
        bind (parse_size es) (λ size. bind (parse_aliases es) (λ aliases.
          let s : Schema = fixed (attrs_of es) fullname aliases size in
          ok (s, store fullname (some s) st'))))))

-- `schema.get("fields", [])`
unfoldable pub fields_of : Entries → Result Items
fields_of es = elim (get (text "fields") es) [ none ↦ ok nil | some d ↦ iterate d ]

unfoldable pub parse_record :
    Settings
    → Parser
    → Text
    → Flavour
    → Entries
    → Option Datum
    → Parsing
    → Result (Schema × Parsing)
unfolding parse_fields fields_of
parse_record cfg parse ns flavour es default st = bind (parse_name ns es) (λ (namespace, fullname).
    bind (define_name fullname st) (λ st'.
      bind (check_default cfg.ignore_default_error default (λ d. ok (is_dict d))) (λ _.
        bind (fields_of es) (λ ds.
          bind (parse_fields parse namespace ds (store fullname none st')) (λ (fs, st'').
            bind (parse_aliases es) (λ aliases.
              let s : Schema = record_schema (attrs_of es) flavour fullname aliases fs in
              ok (s, store fullname (some s) st'')))))))

unfoldable pub parse_kind :
    Settings → Parser → Text → Kind → Entries → Option Datum → Parsing → Result (Schema × Parsing)
unfolding parse_array parse_map parse_enum parse_fixed parse_record
parse_kind cfg parse ns array_kind es default st = parse_array cfg parse ns es default st
parse_kind cfg parse ns map_kind es default st = parse_map cfg parse ns es default st
parse_kind cfg parse ns enum_kind es default st = parse_enum cfg ns es default st
parse_kind cfg parse ns fixed_kind es default st = parse_fixed cfg ns es default st
parse_kind cfg parse ns (record_kind flavour) es default st =
    parse_record cfg parse ns flavour es default st
parse_kind cfg parse ns (primitive_kind p) es default st =
    bind (check_default cfg.ignore_default_error default (λ d. ok (default_matches_type d p)))
      (λ _. ok (annotated p (attrs_of es), st))

unfoldable pub parse_step : Settings → Parser → Parser
unfolding parse_kind parse_union parse_name_of_type
parse_step cfg parse ns (list ds) default st =
    bind (parse_union (λ d. parse ns d no_default) ds st) (λ (ss, st').
      bind (check_default cfg.ignore_default_error default (matches_any cfg.platform ss))
        (λ _. ok (union ss, st')))
parse_step cfg parse ns (str t) default st = parse_name_of_type cfg ns t default st
parse_step cfg parse ns (dict es) default st =
    bind (from_option key_error (get (text "type") es)) (λ type.
      bind (check_logical_type es type)
        (λ _. bind (kind_of type) (λ kind. parse_kind cfg parse ns kind es default st)))
parse_step cfg parse ns d default st = err type_error

-- The fuel is the depth of calls that Python has left.
unfoldable pub parse : ℕ → Settings → Parser
unfolding parse_step
parse zero cfg ns d default st = err recursion_error
parse (suc depth) cfg ns d default st = parse_step cfg (parse depth cfg) ns d default st

-- A parse from the top, with no names defined.
unfoldable pub parse_top : ℕ → Settings → Datum → Named → Result (Schema × Named)
unfolding parse
parse_top depth cfg d named =
    bind (parse depth cfg [] d no_default (record { names = []; named = named }))
      (λ (s, st). ok (s, st.named))

-- `[parse_schema(s, named_schemas, ...) for s in schema]`
unfoldable pub parse_each :
    (Datum → Named → Result (Schema × Named)) → Items → Named → Result (Schemas × Named)
parse_each parse nil named = ok (no_schemas, named)
parse_each parse (cons d ds) named =
    bind (parse d named)
      (λ (s, named'). bind (parse_each parse ds named') (λ (ss, named''). ok (also s ss, named'')))

-- `parse_schema` of a schema that is not marked as parsed: `whole` is `_force or expand`.
unfoldable pub parse_from : ℕ → Bool → Settings → Datum → Named → Result (Schema × Named)
unfolding parse_top parse_each
parse_from zero whole cfg d named = err recursion_error
parse_from (suc depth) true cfg d named = parse_top depth cfg d named
parse_from (suc depth) false cfg (list ds) named =
    bind (parse_each (parse_from depth false cfg) ds named) (λ (ss, named'). ok (union ss, named'))
parse_from (suc depth) false cfg d named = parse_top depth cfg d named

unfoldable pub parse_schema :
    ℕ → Bool → Settings → Datum → NamedSchemas → Result (Schema × NamedSchemas)
unfolding parse_from from_named_schemas to_named_schemas
parse_schema depth force cfg d named_schemas =
    let whole : Bool = if force then true else cfg.expand in
    bind (parse_from depth whole cfg d (from_named_schemas named_schemas))
      (λ (s, named). ok (s, to_named_schemas named))
