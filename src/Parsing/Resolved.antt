-- ===== src/Parsing/Resolved.antt =====
-- What `_parse_schema` returns can be resolved: every name in it stands in the named schemas, with a
-- schema of which the same is true (fastavro/_schema_py.py).
use fastavro.Prelude.{ℕ, zero, suc, Bool, true, false, Option, none, some, ◌≡◌, refl}
use fastavro.Python.Errors.{
  Result, ok, bind, from_option, key_error, Holds, Holds-bind, Holds-after,
}
use fastavro.Python.Text.{Text, text}
use fastavro.Datum.{Datum, str, list, dict, Items, nil, cons, Entries, get, as_dict}
use fastavro.Schema.{Schema, Flavour, Primitive}
use fastavro.Parsing.Names.{Named, Parsing, find_named, is_known, define_name, store}
use fastavro.Parsing.Properties.{text_of, parse_aliases, parse_name, validate_enum_symbols}
use fastavro.Parsing.Checks.{
  default_matches_type, default_matches_primitive, check_default, check_logical_type, is_list,
  is_dict, is_str, parse_size,
}
use fastavro.Parsing.Kinds.{
  Settings, Parser, Kind, array_kind, map_kind, enum_kind, fixed_kind, record_kind, primitive_kind,
  kind_of, primitive_named, parse_union, matches_any, qualify, expansion, look_up, parse_text,
  parse_name_of_type,
}
use fastavro.Parsing.Parse.{
  field_aliases, parse_field, parse_fields, parse_array, parse_map, parse_enum, parse_fixed,
  fields_of, parse_record, parse_kind, parse_step, parse,
}
use fastavro.Parsing.Closed.{
  IsClosed, AreClosed, HasClosed, HasClosed-Includes, IsClosed-Includes, Includes-put_named,
  is_known-put_named, IsSound,
}
use fastavro.Parsing.Advances.{
  Advances, IsParsed, Resolves, and_then, unchanged, define_name-Holds, same_named, store-Holds,
  begin-Advances, record_end-Holds,
}

union-Holds :
    (inner : Datum → Parsing → Result (Schema × Parsing))
    → ((d : Datum) → Resolves (inner d))
    → (ds : Items) (st : Parsing) → IsSound st.named
    → Holds (λ r. Advances st r.1 × AreClosed r.1.named r.0) (parse_union inner ds st)
unfolding parse_union AreClosed Holds
union-Holds inner ih nil st sound = (unchanged st sound, tt)
union-Holds inner ih (cons d ds) st sound =
    Holds-bind (IsParsed st) _ (inner d st) _ (ih d st sound) (λ (s, mid) (a, closed).
      Holds-bind (λ r. Advances mid r.1 × AreClosed r.1.named r.0) _ (parse_union inner ds mid) _
        (union-Holds inner ih ds mid a.1)
        (λ (ss, last) (b, rest).
          (and_then st mid last a b, (IsClosed-Includes mid.named last.named b.0 s closed, rest))))

-- A name stands for itself, or for the schema that the dictionary has.
expansion-IsClosed :
    (expand : Bool) (name : Text) (o : Option Schema) (named : Named)
    → IsSound named
    → find_named name named ≡ some o
    → IsClosed named (expansion expand name o)
unfolding expansion IsClosed is_known
expansion-IsClosed expand name none named sound h = rw (is_known, h) refl
expansion-IsClosed true name (some s) named sound h = sound name s h
expansion-IsClosed false name (some s) named sound h = rw (is_known, h) refl

look_up-Holds :
    (expand : Bool) (name : Text) (o : Option (Option Schema)) (named : Named)
    → IsSound named
    → find_named name named ≡ o
    → Holds (IsClosed named) (look_up expand name o)
unfolding look_up Holds
look_up-Holds expand name none named sound h = tt
look_up-Holds expand name (some s) named sound h = expansion-IsClosed expand name s named sound h

name-Holds :
    (cfg : Settings) (name : Text) (o : Option Primitive) (default : Option Datum)
    → Resolves (parse_text cfg name o default)
unfolding parse_text Holds IsClosed
name-Holds cfg name (some p) default st sound =
    Holds-after _
      (check_default cfg.ignore_default_error default
        (λ d. default_matches_primitive cfg.platform d p))
      _ (λ _. (unchanged st sound, tt))
name-Holds cfg name none default st sound =
    Holds-bind (IsClosed st.named) _ (look_up cfg.expand name (find_named name st.named)) _
      (look_up-Holds cfg.expand name (find_named name st.named) st.named sound refl)
      (λ s closed. (unchanged st sound, closed))

module _ (inner : Parser)
    (ih : (ns : Text) (d : Datum) (default : Option Datum) → Resolves (inner ns d default)) where
  field-Holds :
      (ns : Text) (es : Entries) (st : Parsing)
      → IsSound st.named
      → Holds (λ r. Advances st r.1 × IsClosed r.1.named r.0.1) (parse_field inner ns es st)
  unfolding parse_field Holds
  field-Holds ns es st sound = Holds-after _ (field_aliases es) _ (λ names.
      Holds-after _ (from_option key_error (get (text "name") es)) _ (λ d.
        Holds-after _ (text_of d) _ (λ name.
          Holds-after _ (from_option key_error (get (text "type") es)) _ (λ type.
            Holds-bind (IsParsed st) _ (inner ns type (get (text "default") es) st) _
              (ih ns type (get (text "default") es) st sound) (λ r h. h)))))

  fields-Holds :
      (ns : Text) (ds : Items) (st : Parsing)
      → IsSound st.named
      → Holds (λ r. Advances st r.1 × HasClosed r.1.named r.0) (parse_fields inner ns ds st)
  unfolding parse_fields HasClosed Holds
  fields-Holds ns nil st sound = (unchanged st sound, tt)
  fields-Holds ns (cons d ds) st sound = Holds-after _ (as_dict d) _ (λ es.
      Holds-bind (λ r. Advances st r.1 × IsClosed r.1.named r.0.1) _ (parse_field inner ns es st) _
        (field-Holds ns es st sound)
        (λ (f, mid) (a, closed).
          Holds-bind (λ r. Advances mid r.1 × HasClosed r.1.named r.0) _
            (parse_fields inner ns ds mid) _ (fields-Holds ns ds mid a.1)
            (λ (fs, last) (b, rest). (
              and_then st mid last a b,
              (IsClosed-Includes mid.named last.named b.0 f.1 closed, rest),
            ))))

  module _ (cfg : Settings) (ns : Text) (es : Entries) (default : Option Datum) where
    array-Holds : Resolves (parse_array cfg inner ns es default)
    unfolding parse_array Holds IsClosed
    array-Holds st sound = Holds-after _ (from_option key_error (get (text "items") es)) _ (λ items.
        Holds-bind (IsParsed st) _ (inner ns items none st) _ (ih ns items none st sound) (λ r h.
          Holds-after _ (check_default cfg.ignore_default_error default (λ d. ok (is_list d))) _
            (λ _. h)))

    map-Holds : Resolves (parse_map cfg inner ns es default)
    unfolding parse_map Holds IsClosed
    map-Holds st sound = Holds-after _ (from_option key_error (get (text "values") es)) _ (λ values.
        Holds-bind (IsParsed st) _ (inner ns values none st) _ (ih ns values none st sound) (λ r h.
          Holds-after _ (check_default cfg.ignore_default_error default (λ d. ok (is_dict d))) _
            (λ _. h)))

    -- A name is defined, whose place in the dictionary is not yet taken.
    defined-Holds :
        {A : Type 0} (P : A → Type 0) (f : Text × Text → Parsing → Result A) (st : Parsing)
        → ((name : Text × Text) (mid : Parsing) → mid.named ≡ st.named → Holds P (f name mid))
        → Holds P (bind (parse_name ns es) (λ name. bind (define_name name.1 st) (f name)))
    defined-Holds P f st g = Holds-after _ (parse_name ns es) _ (λ name.
        Holds-bind (λ mid. mid.named ≡ st.named) _ (define_name name.1 st) _
          (define_name-Holds name.1 st) (g name))

    enum-Holds : Resolves (parse_enum cfg ns es default)
    unfolding parse_enum Holds IsClosed store
    enum-Holds st sound = defined-Holds (IsParsed st) _ st (λ name mid same.
        Holds-after _ (validate_enum_symbols es) _ (λ symbols.
          Holds-after _ (check_default cfg.ignore_default_error default (λ d. ok (is_str d))) _
            (λ _. Holds-after _ (parse_aliases es) _ (λ aliases.
              store-Holds name.1 _ st mid (same_named st mid same sound)
                (is_known-put_named name.1 _ mid.named)))))

    fixed-Holds : Resolves (parse_fixed cfg ns es default)
    unfolding parse_fixed Holds IsClosed store
    fixed-Holds st sound = defined-Holds (IsParsed st) _ st (λ name mid same.
        Holds-after _ (check_default cfg.ignore_default_error default (λ d. ok (is_str d))) _ (λ _.
          Holds-after _ (parse_size es) _ (λ size. Holds-after _ (parse_aliases es) _ (λ aliases.
            store-Holds name.1 _ st mid (same_named st mid same sound)
              (is_known-put_named name.1 _ mid.named)))))

    record-Holds : (flavour : Flavour) → Resolves (parse_record cfg inner ns flavour es default)
    unfolding parse_record Holds IsClosed store
    record-Holds flavour st sound = defined-Holds (IsParsed st) _ st (λ name mid same.
        Holds-after _ (check_default cfg.ignore_default_error default (λ d. ok (is_dict d))) _ (λ _.
          Holds-after _ (fields_of es) _ (λ ds.
            let begun : Parsing = store name.1 none mid in
            let before : Advances st mid = same_named st mid same sound in
            Holds-bind (λ r. Advances begun r.1 × HasClosed r.1.named r.0) _
              (parse_fields inner name.0 ds begun) _
              (fields-Holds name.0 ds begun (begin-Advances name.1 st mid before).1)
              (λ (fs, last) (b, closed). Holds-after _ (parse_aliases es) _ (λ aliases.
                record_end-Holds name.1 _ st mid last before b (
                  is_known-put_named name.1 _ last.named,
                  HasClosed-Includes last.named _ (Includes-put_named name.1 _ last.named) fs
                      closed,
                ))))))

    kind-Holds : (kind : Kind) → Resolves (parse_kind cfg inner ns kind es default)
    unfolding parse_kind Holds IsClosed
    kind-Holds array_kind st sound = array-Holds st sound
    kind-Holds map_kind st sound = map-Holds st sound
    kind-Holds enum_kind st sound = enum-Holds st sound
    kind-Holds fixed_kind st sound = fixed-Holds st sound
    kind-Holds (record_kind flavour) st sound = record-Holds flavour st sound
    kind-Holds (primitive_kind p) st sound =
        Holds-after _
          (check_default cfg.ignore_default_error default (λ d. ok (default_matches_type d p))) _
          (λ _. (unchanged st sound, tt))

  step-Holds :
      (cfg : Settings) (ns : Text) (d : Datum) (default : Option Datum)
      → Resolves (parse_step cfg inner ns d default)
  unfolding parse_step parse_name_of_type Holds IsClosed
  step-Holds cfg ns (list ds) default st sound =
      Holds-bind (λ r. Advances st r.1 × AreClosed r.1.named r.0) _
        (parse_union (λ d. inner ns d none) ds st) _
        (union-Holds (λ d. inner ns d none) (λ d. ih ns d none) ds st sound)
        (λ (ss, mid) h.
          Holds-after _
            (check_default cfg.ignore_default_error default (matches_any cfg.platform ss)) _
            (λ _. h))
  step-Holds cfg ns (str t) default st sound =
      name-Holds cfg (qualify ns t) (primitive_named t) default st sound
  step-Holds cfg ns (dict es) default st sound =
      Holds-after _ (from_option key_error (get (text "type") es)) _ (λ type.
        Holds-after _ (check_logical_type es type) _ (λ _.
          Holds-after _ (kind_of type) _ (λ kind. kind-Holds cfg ns es default kind st sound)))
  step-Holds cfg ns d default st sound = tt

pub parse-Holds :
    (depth : ℕ) (cfg : Settings) (ns : Text) (d : Datum) (default : Option Datum)
    → Resolves (parse depth cfg ns d default)
unfolding parse Holds
parse-Holds zero cfg ns d default st sound = tt
parse-Holds (suc depth) cfg ns d default st sound =
    step-Holds (parse depth cfg) (parse-Holds depth cfg) cfg ns d default st sound
