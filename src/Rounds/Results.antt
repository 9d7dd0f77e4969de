-- ===== src/Rounds/Results.antt =====
-- The steps of the readers that read nothing end (fastavro/_read_py.py).
use fastavro.Prelude.{
  ◌&&◌, ◌||◌, Bool, not, List, [], ◌∷◌, length, ltb, get_elem?, Option, none, some,
}
use fastavro.Python.Errors.{
  Result, ok, err, from_option, key_error, index_error, type_error, schema_resolution_error,
}
use fastavro.Python.Errors.InRounds.{
  InRounds, InRounds-bind, InRounds-option, InRounds-if, InRounds-from_option,
}
use fastavro.Python.Ints.{ℤ}
use fastavro.Python.Text.{Text}
use fastavro.Datum.{Datum, Entries, str, contains, set_entry, count_entries}
use fastavro.Schema.{
  Schema, Schemas, Fields, NamedSchemas, prim, ref, union, array, map, enum, record_schema,
  no_schemas, also, no_fields, field, contains_text, has_field, find_schema, name?, is_named_type,
  is_avro_type, is_single_record_union, is_single_name_union, extract_record_type,
}
use fastavro.Context.{ReadContext, ReadOptions}
use fastavro.Resolution.{is_string}
use fastavro.Read.Values.{
  list_index, symbol_at, given, enum_default, resolve_symbol, reader_items, reader_values,
}
use fastavro.Read.Unions.{
  matching_branch, reader_branch, name_of, name_behind, branch_name, referenced_name, with_name,
  is_record, label_result,
}
use fastavro.Read.Records.{by_name, count_names, fill_defaults, missing_defaults, reader_fields}
use fastavro.Read.Data.{reader_named, matching}

pub symbol_at-InRounds : (symbols : List Text) (i : ℤ) → InRounds (symbol_at symbols i)
unfolding InRounds
symbol_at-InRounds symbols i =
    InRounds-option (list_index (length symbols) i) (err index_error) _ tt
      (λ j. InRounds-from_option index_error (get_elem? symbols j) tt)

pub resolve_symbol-InRounds :
    (r : Option Schema) (symbol : Text) → InRounds (resolve_symbol r symbol)
unfolding resolve_symbol InRounds
resolve_symbol-InRounds none symbol = tt
resolve_symbol-InRounds (some (enum a name aliases symbols default)) symbol =
    InRounds-if (contains_text symbol symbols) (ok (str symbol)) _ tt (default-InRounds default)
  where
    default-InRounds : (o : Option Text) → InRounds (enum_default o)
    default-InRounds none = tt
    default-InRounds (some []) = tt
    default-InRounds (some (c ∷ s)) = tt
resolve_symbol-InRounds (some s) symbol = tt

pub items-InRounds : (r : Option Schema) → InRounds (reader_items r)
unfolding InRounds
items-InRounds none = tt
items-InRounds (some (array a s)) = tt
items-InRounds (some s) = tt

pub values-InRounds : (r : Option Schema) → InRounds (reader_values r)
unfolding InRounds
values-InRounds none = tt
values-InRounds (some (map a s)) = tt
values-InRounds (some s) = tt

pub branch-InRounds :
    (test : Schema → Result Bool)
    → ((s : Schema) → InRounds (test s))
    → (ss : Schemas) → InRounds (matching_branch test ss)
unfolding matching_branch InRounds
branch-InRounds test h no_schemas = tt
branch-InRounds test h (also s ss) =
    InRounds-bind (test s) _ (h s)
      (λ found. InRounds-if found (ok s) _ tt (branch-InRounds test h ss))

pub reader_branch-InRounds :
    (test : Schema → Result Bool)
    → ((s : Schema) → InRounds (test s))
    → (r : Option Schema) → InRounds (reader_branch test r)
unfolding reader_branch InRounds
reader_branch-InRounds test h none = tt
reader_branch-InRounds test h (some (union ss)) =
    InRounds-bind (matching_branch test ss) _ (branch-InRounds test h ss) (λ s. tt)
reader_branch-InRounds test h (some s) =
    InRounds-bind (test s) _ (h s)
      (λ found. InRounds-if found (ok (some s, none)) (err schema_resolution_error) tt tt)

pub name_of-InRounds : (s : Schema) → InRounds (name_of s)
unfolding InRounds
name_of-InRounds s =
    InRounds-if (is_string s) (err type_error) _ tt (InRounds-from_option key_error (name? s) tt)

pub name_behind-InRounds : (table : NamedSchemas) (s : Schema) → InRounds (name_behind table s)
unfolding InRounds
name_behind-InRounds table (ref name) =
    InRounds-bind (from_option key_error (find_schema name table)) _
      (InRounds-from_option key_error (find_schema name table) tt) (λ s. name_of-InRounds s)
name_behind-InRounds table s = tt

pub branch_name-InRounds : (r : Option Schema) (s : Schema) → InRounds (branch_name r s)
branch_name-InRounds none s = name_of-InRounds s
branch_name-InRounds (some r) s = name_of-InRounds r

pub referenced_name-InRounds :
    (ctx : ReadContext) (r : Option Schema) (s : Schema) → InRounds (referenced_name ctx r s)
referenced_name-InRounds ctx none s = name_behind-InRounds ctx.writer s
referenced_name-InRounds ctx (some r) s = name_behind-InRounds ctx.reader r

pub with_name-InRounds :
    (name : Result Text) (d : Datum) → InRounds name → InRounds (with_name name d)
unfolding InRounds
with_name-InRounds name d h = InRounds-bind name _ h (λ t. tt)

pub label_result-InRounds :
    (ctx : ReadContext) (options : ReadOptions) (ss : Schemas) (s : Schema) (r : Option Schema)
    (d : Datum)
    → InRounds (label_result ctx options ss s r d)
unfolding label_result InRounds
label_result-InRounds ctx options ss s r d =
    let type = extract_record_type s in
    let by_branch = with_name-InRounds (branch_name r s) d (branch_name-InRounds r s) in
    let by_reference =
      with_name-InRounds (referenced_name ctx r s) d (referenced_name-InRounds ctx r s) in
    InRounds-if (options.return_named_type_override && is_single_name_union ss) (ok d) _ tt (
      InRounds-if (options.return_named_type && is_named_type type) (with_name (branch_name r s) d)
        _ by_branch
        (InRounds-if (options.return_named_type && not (is_avro_type type))
          (with_name (referenced_name ctx r s) d) _ by_reference
          (InRounds-if (options.return_record_name_override && is_single_record_union ss) (ok d) _
            tt
            (InRounds-if (options.return_record_name && is_record type)
              (with_name (branch_name r s) d) _ by_branch
              (InRounds-if (options.return_record_name && not (is_avro_type type))
                (with_name (referenced_name ctx r s) d) (ok d) by_reference tt)))))

pub defaults-InRounds : (ws rs fs : Fields) (es : Entries) → InRounds (fill_defaults ws rs fs es)
unfolding fill_defaults InRounds
defaults-InRounds ws rs no_fields es = tt
defaults-InRounds ws rs (field name s default aliases fs) es =
    InRounds-if (has_field name ws || contains name es) _ _ (defaults-InRounds ws rs fs es) (
      InRounds-option (by_name name rs) (err schema_resolution_error) _ tt (λ f.
        InRounds-option f.default (err schema_resolution_error) _ tt
          (λ d. defaults-InRounds ws rs fs (set_entry name d es))))

pub missing_defaults-InRounds :
    (ws rs : Fields) (es : Entries) → InRounds (missing_defaults ws rs es)
unfolding InRounds
missing_defaults-InRounds ws rs es =
    InRounds-if (ltb (count_entries es) (count_names rs)) _ (ok es) (defaults-InRounds ws rs rs es)
      tt

pub reader_fields-InRounds : (s : Schema) → InRounds (reader_fields s)
unfolding InRounds
reader_fields-InRounds (record_schema a f name aliases fs) = tt
reader_fields-InRounds (union ss) = tt
reader_fields-InRounds s = tt

pub reader_named-InRounds :
    (table : NamedSchemas) (r : Option Schema) → InRounds (reader_named table r)
unfolding InRounds
reader_named-InRounds table none = tt
reader_named-InRounds table (some (ref name)) = tt
reader_named-InRounds table (some (prim p)) = tt
reader_named-InRounds table (some s) = tt

pub matching-InRounds :
    (match_with : Schema → Schema → Result Schema) (s : Schema) (r : Option Schema)
    → ((a b : Schema) → InRounds (match_with a b))
    → InRounds (matching match_with s r)
unfolding InRounds
matching-InRounds match_with s r h =
    InRounds-option (given r) (ok r) _ tt
      (λ rs. InRounds-bind (match_with s rs) _ (h s rs) (λ found. tt))
