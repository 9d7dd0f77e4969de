-- ===== src/Parsing/Termination.antt =====
-- `_parse_schema` does not need more calls in one another than the schema is high
-- (fastavro/_schema_py.py).
use fastavro.Prelude.{ℕ, zero, suc, ◌<◌, Bool, Option, none, some, arith}
use fastavro.Python.Errors.{Result, ok, bind, from_option, key_error}
use fastavro.Python.Errors.Ends.{Ends, Ends-bind, Ends-option, Ends-from_option}
use fastavro.Python.Text.{Text, text}
use fastavro.Datum.{Datum, str, list, dict, Items, nil, cons, Entries, get, as_dict}
use fastavro.Schema.{Schema, Flavour, Primitive}
use fastavro.Parsing.Names.{Parsing, find_named, define_name, store}
use fastavro.Parsing.Properties.{text_of, parse_aliases, parse_name, validate_enum_symbols}
use fastavro.Parsing.Checks.{
  check_default, check_logical_type, is_list, is_dict, is_str, parse_size, default_matches_type,
  default_matches_primitive,
}
use fastavro.Parsing.Kinds.{
  Settings, Parser, Kind, array_kind, map_kind, enum_kind, fixed_kind, record_kind, primitive_kind,
  kind_of, primitive_named, parse_union, matches_any, qualify, look_up, parse_text,
  parse_name_of_type,
}
use fastavro.Parsing.Parse.{
  field_aliases, parse_field, parse_fields, parse_array, parse_map, parse_enum, parse_fixed,
  fields_of, parse_record, parse_kind, parse_step, parse,
}
use fastavro.Parsing.Ends.{
  PlatformEnds, matches_any-Ends, primitive-Ends, check_default-Ends, parse_size-Ends,
  check_logical_type-Ends, text_of-Ends, parse_aliases-Ends, field_aliases-Ends, parse_name-Ends,
  iterate-Ends, validate_enum_symbols-Ends, define_name-Ends, kind_of-Ends, as_dict-Ends,
  look_up-Ends,
}
use fastavro.Parsing.Heights.{
  height, items_height, entries_height, entry-height, as_dict-height, fields_of-height,
}

fields_of-Ends : (es : Entries) → Ends (fields_of es)
unfolding fields_of Ends
fields_of-Ends es = Ends-option (get (text "fields") es) (ok nil) _ tt (λ d e. iterate-Ends d)

-- A parse ends for what is lower than a bound.
abbrev EndsBelow : ℕ → Parser → Type 0
EndsBelow n inner =
    (ns : Text) (d : Datum) (default : Option Datum) (st : Parsing)
    → height d < n
    → Ends (inner ns d default st)

union-Ends :
    (n : ℕ) (inner : Datum → Parsing → Result (Schema × Parsing))
    → ((d : Datum) (st : Parsing) → height d < n → Ends (inner d st))
    → (ds : Items) (st : Parsing) → items_height ds < n
    → Ends (parse_union inner ds st)
unfolding parse_union height Ends
union-Ends n inner ih nil st low = tt
union-Ends n inner ih (cons d ds) st low =
    Ends-bind (inner d st) _ (ih d st (omega arith)) (λ (s, mid) e.
      Ends-bind (parse_union inner ds mid) _ (union-Ends n inner ih ds mid (omega arith))
        (λ r e. tt))

module _ (n : ℕ) (inner : Parser) (ih : EndsBelow n inner) where
  field-Ends :
      (ns : Text) (es : Entries) (st : Parsing)
      → entries_height es < n
      → Ends (parse_field inner ns es st)
  unfolding parse_field Ends
  field-Ends ns es st low = Ends-bind (field_aliases es) _ (field_aliases-Ends es) (λ names e.
      Ends-bind (from_option key_error (get (text "name") es)) _ (Ends-from_option key_error _ tt)
        (λ d e. Ends-bind (text_of d) _ (text_of-Ends d) (λ name e.
          Ends-bind (from_option key_error (get (text "type") es)) _
            (Ends-from_option key_error _ tt)
            (λ type here.
              Ends-bind (inner ns type (get (text "default") es) st) _
                (ih ns type (get (text "default") es) st
                  (omega (arith, low, entry-height (text "type") es type here)))
                (λ r e. tt)))))

  fields-Ends :
      (ns : Text) (ds : Items) (st : Parsing)
      → items_height ds < n
      → Ends (parse_fields inner ns ds st)
  unfolding parse_fields height Ends
  fields-Ends ns nil st low = tt
  fields-Ends ns (cons d ds) st low = Ends-bind (as_dict d) _ (as_dict-Ends d) (λ es here.
      Ends-bind (parse_field inner ns es st) _
        (field-Ends ns es st (omega (arith, low, as_dict-height d es here)))
        (λ (f, mid) e.
          Ends-bind (parse_fields inner ns ds mid) _ (fields-Ends ns ds mid (omega (arith, low)))
            (λ r e. tt)))

  module _ (cfg : Settings) (ns : Text) (es : Entries) (low : entries_height es < n)
      (default : Option Datum) where
    check-Ends :
        (test : Datum → Bool)
        → Ends (check_default cfg.ignore_default_error default (λ d. ok (test d)))
    unfolding Ends
    check-Ends test =
        check_default-Ends cfg.ignore_default_error default (λ d. ok (test d)) (λ d. tt)

    -- The one schema that is inside of a schema in braces.
    inside-Ends :
        (k : Text) (st : Parsing) {A : Type 0} (f : Schema × Parsing → Result A)
        → ((r : Schema × Parsing) → Ends (f r))
        → Ends (bind (from_option key_error (get k es)) (λ d. bind (inner ns d none st) f))
    unfolding Ends
    inside-Ends k st f g =
        Ends-bind (from_option key_error (get k es)) _ (Ends-from_option key_error _ tt) (λ d here.
          Ends-bind (inner ns d none st) _
            (ih ns d none st (omega (arith, low, entry-height k es d here))) (λ r e. g r))

    -- What comes after the name of a type is defined.
    named-Ends :
        {A : Type 0} (f : Text × Text → Parsing → Result A) (st : Parsing)
        → ((name : Text × Text) (mid : Parsing) → Ends (f name mid))
        → Ends (bind (parse_name ns es) (λ name. bind (define_name name.1 st) (f name)))
    named-Ends f st g = Ends-bind (parse_name ns es) _ (parse_name-Ends ns es) (λ name e.
        Ends-bind (define_name name.1 st) _ (define_name-Ends name.1 st) (λ mid e. g name mid))

    record-Ends :
        (flavour : Flavour) (st : Parsing) → Ends (parse_record cfg inner ns flavour es default st)
    unfolding parse_record Ends
    record-Ends flavour st = named-Ends _ st (λ name mid.
        Ends-bind (check_default cfg.ignore_default_error default (λ d. ok (is_dict d))) _
          (check-Ends is_dict)
          (λ u e. Ends-bind (fields_of es) _ (fields_of-Ends es) (λ ds here.
            Ends-bind (parse_fields inner name.0 ds (store name.1 none mid)) _
              (fields-Ends name.0 ds (store name.1 none mid)
                (omega (arith, low, fields_of-height es ds here)))
              (λ r e. Ends-bind (parse_aliases es) _ (parse_aliases-Ends es) (λ aliases e. tt)))))

    kind-Ends : (kind : Kind) (st : Parsing) → Ends (parse_kind cfg inner ns kind es default st)
    unfolding parse_kind parse_array parse_map parse_enum parse_fixed Ends
    kind-Ends array_kind st = inside-Ends (text "items") st _ (λ r.
        Ends-bind (check_default cfg.ignore_default_error default (λ d. ok (is_list d))) _
          (check-Ends is_list) (λ u e. tt))
    kind-Ends map_kind st = inside-Ends (text "values") st _ (λ r.
        Ends-bind (check_default cfg.ignore_default_error default (λ d. ok (is_dict d))) _
          (check-Ends is_dict) (λ u e. tt))
    kind-Ends enum_kind st = named-Ends _ st (λ name mid.
        Ends-bind (validate_enum_symbols es) _ (validate_enum_symbols-Ends es) (λ symbols e.
          Ends-bind (check_default cfg.ignore_default_error default (λ d. ok (is_str d))) _
            (check-Ends is_str)
            (λ u e. Ends-bind (parse_aliases es) _ (parse_aliases-Ends es) (λ aliases e. tt))))
    kind-Ends fixed_kind st = named-Ends _ st (λ name mid.
        Ends-bind (check_default cfg.ignore_default_error default (λ d. ok (is_str d))) _
          (check-Ends is_str)
          (λ u e.
            Ends-bind (parse_size es) _ (parse_size-Ends es)
              (λ size e. Ends-bind (parse_aliases es) _ (parse_aliases-Ends es) (λ aliases e. tt))))
    kind-Ends (record_kind flavour) st = record-Ends flavour st
    kind-Ends (primitive_kind p) st =
        Ends-bind
          (check_default cfg.ignore_default_error default (λ d. ok (default_matches_type d p))) _
          (check-Ends (λ d. default_matches_type d p)) (λ u e. tt)

text-Ends :
    (cfg : Settings) (name : Text) (o : Option Primitive) (default : Option Datum) (st : Parsing)
    → PlatformEnds cfg.platform
    → Ends (parse_text cfg name o default st)
unfolding parse_text Ends
text-Ends cfg name (some p) default st py =
    Ends-bind
      (check_default cfg.ignore_default_error default
        (λ d. default_matches_primitive cfg.platform d p))
      _
      (check_default-Ends cfg.ignore_default_error default _
        (λ d. primitive-Ends cfg.platform py d p))
      (λ u e. tt)
text-Ends cfg name none default st py =
    Ends-bind (look_up cfg.expand name (find_named name st.named)) _
      (look_up-Ends cfg.expand name (find_named name st.named)) (λ s e. tt)

step-Ends :
    (n : ℕ) (cfg : Settings) (inner : Parser)
    → PlatformEnds cfg.platform
    → EndsBelow n inner
    → EndsBelow (suc n) (parse_step cfg inner)
unfolding parse_step parse_name_of_type height Ends
step-Ends n cfg inner py ih ns (list ds) default st low =
    Ends-bind (parse_union (λ d. inner ns d none) ds st) _
      (union-Ends n (λ d. inner ns d none) (λ d. ih ns d none) ds st (omega (arith, low)))
      (λ (ss, mid) e.
        Ends-bind (check_default cfg.ignore_default_error default (matches_any cfg.platform ss)) _
          (check_default-Ends cfg.ignore_default_error default _
            (matches_any-Ends cfg.platform py ss))
          (λ u e. tt))
step-Ends n cfg inner py ih ns (str t) default st low =
    text-Ends cfg (qualify ns t) (primitive_named t) default st py
step-Ends n cfg inner py ih ns (dict es) default st low =
    Ends-bind (from_option key_error (get (text "type") es)) _ (Ends-from_option key_error _ tt)
      (λ type e. Ends-bind (check_logical_type es type) _ (check_logical_type-Ends es type) (λ u e.
        Ends-bind (kind_of type) _ (kind_of-Ends type)
          (λ kind e. kind-Ends n inner ih cfg ns es (omega (arith, low)) default kind st)))
step-Ends n cfg inner py ih ns d default st low = tt

-- If the depth of calls that is left is greater than the number of lists and dictionaries that are in
-- one another in a schema, and the platform's conversions to float do not run out of calls, then
-- parsing the schema does not run into the limit on the depth of calls, whatever it contains.
pub parse-Ends :
    (depth : ℕ) (cfg : Settings) (ns : Text) (d : Datum) (default : Option Datum) (st : Parsing)
    → PlatformEnds cfg.platform
    → height d < depth
    → Ends (parse depth cfg ns d default st)
unfolding parse
parse-Ends zero cfg ns d default st py low = absurd (omega (arith, low))
parse-Ends (suc depth) cfg ns d default st py low =
    step-Ends depth cfg (parse depth cfg) py
      (λ ns' d' default' st' low'. parse-Ends depth cfg ns' d' default' st' py low') ns d default st
      low
