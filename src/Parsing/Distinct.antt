-- ===== src/Parsing/Distinct.antt =====
-- `_parse_schema` defines every name once: the names that it collects are those of the types that the
-- parsed schema defines, and none is there twice (`names`, fastavro/_schema_py.py).
use fastavro.Prelude.{
  ℕ, zero, suc, Bool, true, false, [], ◌∷◌, ◌++◌, Option, none, some, ◌≡◌, refl, sym, subst,
}
use fastavro.Python.Errors.{
  Result, ok, bind, from_option, key_error, Holds, Holds-bind, Holds-after, Holds-ok,
}
use fastavro.Python.Text.{Text, text}
use fastavro.Datum.{Datum, str, list, dict, Items, nil, cons, Entries, get, as_dict}
use fastavro.Schema.{Schema, Flavour, Primitive}
use fastavro.Parsing.Names.{Parsing, find_named, define_name, store}
use fastavro.Parsing.Properties.{text_of, parse_aliases, parse_name, validate_enum_symbols}
use fastavro.Parsing.Checks.{
  check_default, check_logical_type, is_list, is_dict, is_str, parse_size, default_matches_type,
  default_matches_primitive,
}
use fastavro.Parsing.Kinds.{
  Settings, Parser, Kind, array_kind, map_kind, enum_kind, fixed_kind, record_kind, primitive_kind,
  kind_of, primitive_named, parse_union, matches_any, qualify, expansion, look_up, parse_text,
  parse_name_of_type,
}
use fastavro.Parsing.Parse.{
  field_aliases, parse_field, parse_fields, parse_array, parse_map, parse_enum, parse_fixed,
  fields_of, parse_record, parse_kind, parse_step, parse,
}
use fastavro.Parsing.Defined.{
  defined, all_defined, fields_defined, IsDistinct, Defines, Registers, nothing_new, Defines-trans,
  define_name-Defines,
}

union-Defines :
    (inner : Datum → Parsing → Result (Schema × Parsing))
    → ((d : Datum) (st : Parsing) → Holds (Registers st) (inner d st))
    → (ds : Items) (st : Parsing)
    → Holds (λ r. Defines (all_defined r.0) st r.1) (parse_union inner ds st)
unfolding parse_union defined Holds
union-Defines inner ih nil st = nothing_new st
union-Defines inner ih (cons d ds) st =
    Holds-bind (Registers st) _ (inner d st) _ (ih d st) (λ (s, mid) a.
      Holds-bind (λ r. Defines (all_defined r.0) mid r.1) _ (parse_union inner ds mid) _
        (union-Defines inner ih ds mid)
        (λ (ss, last) b. Defines-trans (defined s) (all_defined ss) st mid last a b))

look_up-Defines :
    (expand : Bool) (name : Text) (o : Option (Option Schema))
    → expand ≡ false
    → Holds (λ s. defined s ≡ []) (look_up expand name o)
unfolding look_up expansion Holds defined
look_up-Defines expand name none e = tt
look_up-Defines expand name (some none) e = refl
look_up-Defines true name (some (some s)) e = absurd cc
look_up-Defines false name (some (some s)) e = refl

text-Defines :
    (cfg : Settings) (name : Text) (o : Option Primitive) (default : Option Datum) (st : Parsing)
    → cfg.expand ≡ false
    → Holds (Registers st) (parse_text cfg name o default st)
unfolding parse_text Holds defined
text-Defines cfg name (some p) default st e =
    Holds-after _
      (check_default cfg.ignore_default_error default
        (λ d. default_matches_primitive cfg.platform d p))
      _ (λ _. nothing_new st)
text-Defines cfg name none default st e =
    Holds-bind (λ s. defined s ≡ []) _ (look_up cfg.expand name (find_named name st.named)) _
      (look_up-Defines cfg.expand name (find_named name st.named) e)
      (λ s nothing. subst (λ ns. Defines ns st st) (sym nothing) (nothing_new st))

module _ (inner : Parser)
    (ih : (ns : Text) (d : Datum) (default : Option Datum) (st : Parsing)
      → Holds (Registers st) (inner ns d default st)) where
  field-Defines :
      (ns : Text) (es : Entries) (st : Parsing)
      → Holds (λ r. Defines (defined r.0.1) st r.1) (parse_field inner ns es st)
  unfolding parse_field Holds
  field-Defines ns es st = Holds-after _ (field_aliases es) _ (λ names.
      Holds-after _ (from_option key_error (get (text "name") es)) _ (λ d.
        Holds-after _ (text_of d) _ (λ name.
          Holds-after _ (from_option key_error (get (text "type") es)) _ (λ type.
            Holds-bind (Registers st) _ (inner ns type (get (text "default") es) st) _
              (ih ns type (get (text "default") es) st) (λ r h. h)))))

  fields-Defines :
      (ns : Text) (ds : Items) (st : Parsing)
      → Holds (λ r. Defines (fields_defined r.0) st r.1) (parse_fields inner ns ds st)
  unfolding parse_fields defined Holds
  fields-Defines ns nil st = nothing_new st
  fields-Defines ns (cons d ds) st = Holds-after _ (as_dict d) _ (λ es.
      Holds-bind (λ r. Defines (defined r.0.1) st r.1) _ (parse_field inner ns es st) _
        (field-Defines ns es st)
        (λ (f, mid) a.
          Holds-bind (λ r. Defines (fields_defined r.0) mid r.1) _ (parse_fields inner ns ds mid) _
            (fields-Defines ns ds mid)
            (λ (fs, last) b. Defines-trans (defined f.1) (fields_defined fs) st mid last a b)))

  module _ (cfg : Settings) (ns : Text) (es : Entries) (default : Option Datum) where
    -- What a named type adds to its name.
    named-Defines :
        {A : Type 0} (P : A → Type 0) (f : Text × Text → Parsing → Result A) (st : Parsing)
        → ((name : Text × Text) (mid : Parsing)
            → Defines (name.1 ∷ []) st mid
            → Holds P (f name mid))
        → Holds P (bind (parse_name ns es) (λ name. bind (define_name name.1 st) (f name)))
    named-Defines P f st g = Holds-after _ (parse_name ns es) _ (λ name.
        Holds-bind (Defines (name.1 ∷ []) st) _ (define_name name.1 st) _
          (define_name-Defines name.1 st) (g name))

    record-Defines :
        (flavour : Flavour) (st : Parsing)
        → Holds (Registers st) (parse_record cfg inner ns flavour es default st)
    unfolding parse_record Holds defined store
    record-Defines flavour st = named-Defines (Registers st) _ st (λ name mid a.
        Holds-after _ (check_default cfg.ignore_default_error default (λ d. ok (is_dict d))) _ (λ _.
          Holds-after _ (fields_of es) _ (λ ds.
            let begun : Parsing = store name.1 none mid in
            Holds-bind (λ r. Defines (fields_defined r.0) begun r.1) _
              (parse_fields inner name.0 ds begun) _ (fields-Defines name.0 ds begun)
              (λ (fs, last) b.
                Holds-after _ (parse_aliases es) _
                  (λ aliases. Defines-trans (name.1 ∷ []) (fields_defined fs) st begun last a b)))))

    kind-Defines :
        (kind : Kind) (st : Parsing)
        → Holds (Registers st) (parse_kind cfg inner ns kind es default st)
    unfolding parse_kind parse_array parse_map parse_enum parse_fixed Holds defined store
    kind-Defines array_kind st =
        Holds-after _ (from_option key_error (get (text "items") es)) _ (λ items.
          Holds-bind (Registers st) _ (inner ns items none st) _ (ih ns items none st) (λ r h.
            Holds-after _ (check_default cfg.ignore_default_error default (λ d. ok (is_list d))) _
              (λ _. h)))
    kind-Defines map_kind st =
        Holds-after _ (from_option key_error (get (text "values") es)) _ (λ values.
          Holds-bind (Registers st) _ (inner ns values none st) _ (ih ns values none st) (λ r h.
            Holds-after _ (check_default cfg.ignore_default_error default (λ d. ok (is_dict d))) _
              (λ _. h)))
    kind-Defines enum_kind st = named-Defines (Registers st) _ st (λ name mid a.
        Holds-after _ (validate_enum_symbols es) _ (λ symbols.
          Holds-after _ (check_default cfg.ignore_default_error default (λ d. ok (is_str d))) _
            (λ _. Holds-after _ (parse_aliases es) _ (λ aliases. a))))
    kind-Defines fixed_kind st = named-Defines (Registers st) _ st (λ name mid a.
        Holds-after _ (check_default cfg.ignore_default_error default (λ d. ok (is_str d))) _ (λ _.
          Holds-after _ (parse_size es) _
            (λ size. Holds-after _ (parse_aliases es) _ (λ aliases. a))))
    kind-Defines (record_kind flavour) st = record-Defines flavour st
    kind-Defines (primitive_kind p) st =
        Holds-after _
          (check_default cfg.ignore_default_error default (λ d. ok (default_matches_type d p))) _
          (λ _. nothing_new st)

  step-Defines :
      (cfg : Settings) (ns : Text) (d : Datum) (default : Option Datum) (st : Parsing)
      → cfg.expand ≡ false
      → Holds (Registers st) (parse_step cfg inner ns d default st)
  unfolding parse_step parse_name_of_type Holds defined
  step-Defines cfg ns (list ds) default st e =
      Holds-bind (λ r. Defines (all_defined r.0) st r.1) _
        (parse_union (λ d. inner ns d none) ds st) _
        (union-Defines (λ d. inner ns d none) (λ d. ih ns d none) ds st)
        (λ (ss, mid) h.
          Holds-after _
            (check_default cfg.ignore_default_error default (matches_any cfg.platform ss)) _
            (λ _. h))
  step-Defines cfg ns (str t) default st e =
      text-Defines cfg (qualify ns t) (primitive_named t) default st e
  step-Defines cfg ns (dict es) default st e =
      Holds-after _ (from_option key_error (get (text "type") es)) _ (λ type.
        Holds-after _ (check_logical_type es type) _
          (λ _. Holds-after _ (kind_of type) _ (λ kind. kind-Defines cfg ns es default kind st)))
  step-Defines cfg ns d default st e = tt

parse-Defines :
    (depth : ℕ) (cfg : Settings) (ns : Text) (d : Datum) (default : Option Datum) (st : Parsing)
    → cfg.expand ≡ false
    → Holds (Registers st) (parse depth cfg ns d default st)
unfolding parse Holds
parse-Defines zero cfg ns d default st e = tt
parse-Defines (suc depth) cfg ns d default st e =
    step-Defines (parse depth cfg)
      (λ ns' d' default' st'. parse-Defines depth cfg ns' d' default' st' e) cfg ns d default st e

-- If a schema is parsed without `expand`, then the names that the parse collects are the names of the
-- types that the parsed schema defines, after those that were there before, and if none was there
-- twice before, none is there twice.
pub parse-IsDistinct :
    (depth : ℕ) (cfg : Settings) (ns : Text) (d : Datum) (default : Option Datum) (st st' : Parsing)
    (s : Schema)
    → cfg.expand ≡ false
    → IsDistinct st.names
    → parse depth cfg ns d default st ≡ ok (s, st')
    → (st'.names ≡ st.names ++ defined s) × IsDistinct (st.names ++ defined s)
parse-IsDistinct depth cfg ns d default st st' s e distinct h =
    let (same, keeps) =
      Holds-ok (Registers st) _ (s, st') (parse-Defines depth cfg ns d default st e) h in
    (same, subst IsDistinct same (keeps distinct))
