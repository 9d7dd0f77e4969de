-- ===== src/Parsing/TopLevel.antt =====
-- What `parse_schema` leaves in the dictionary that it is handed (fastavro/_schema_py.py).
use fastavro.Prelude.{
  ℕ, zero, suc, Bool, true, false, [], ◌∷◌, if◌then◌else◌, Option, none, some, ◌≡◌, refl, sym, ◌∙◌,
  ◌≢◌, Bool-cases, inl, inr, arith,
}
use fastavro.Python.Errors.{Result, ok, Holds, Holds-bind, Holds-ok}
use fastavro.Python.Text.{Text, eq_text}
use fastavro.Datum.{Datum, list, Items, nil, cons}
use fastavro.Schema.{Schema, NamedSchemas}
use fastavro.Parsing.Names.{
  Named, Parsing, find_named, is_known, from_named_schemas, to_named_schemas,
}
use fastavro.Parsing.Kinds.{Settings}
use fastavro.Parsing.Parse.{parse, parse_top, parse_each, parse_from, parse_schema}
use fastavro.Parsing.Closed.{IsClosed, AreClosed, Includes, IsClosed-Includes, IsSound}
use fastavro.Parsing.Advances.{Grows, Grows-trans, Grows-refl, IsParsed}
use fastavro.Parsing.Resolved.{parse-Holds}

abbrev Leaves : Named → Schema × Named → Type 0
Leaves named r = Grows named r.1 × IsClosed r.1 r.0

parse_top-Holds :
    (depth : ℕ) (cfg : Settings) (d : Datum) (named : Named)
    → IsSound named
    → Holds (Leaves named) (parse_top depth cfg d named)
unfolding parse_top Holds
parse_top-Holds depth cfg d named sound =
    let st : Parsing = record { names = []; named = named } in
    Holds-bind (IsParsed st) _ (parse depth cfg [] d none st) _
      (parse-Holds depth cfg [] d none st sound) (λ r h. h)

parse_each-Holds :
    (inner : Datum → Named → Result (Schema × Named))
    → ((d : Datum) (named : Named) → IsSound named → Holds (Leaves named) (inner d named))
    → (ds : Items) (named : Named) → IsSound named
    → Holds (λ r. Grows named r.1 × AreClosed r.1 r.0) (parse_each inner ds named)
unfolding parse_each AreClosed Holds
parse_each-Holds inner ih nil named sound = (Grows-refl named sound, tt)
parse_each-Holds inner ih (cons d ds) named sound =
    Holds-bind (Leaves named) _ (inner d named) _ (ih d named sound) (λ (s, mid) (a, closed).
      Holds-bind (λ r. Grows mid r.1 × AreClosed r.1 r.0) _ (parse_each inner ds mid) _
        (parse_each-Holds inner ih ds mid a.1)
        (λ (ss, last) (b, rest).
          (Grows-trans named mid last a b, (IsClosed-Includes mid last b.0 s closed, rest))))

parse_from-Holds :
    (depth : ℕ) (whole : Bool) (cfg : Settings) (d : Datum) (named : Named)
    → IsSound named
    → Holds (Leaves named) (parse_from depth whole cfg d named)
unfolding parse_from Holds IsClosed
parse_from-Holds zero whole cfg d named sound = tt
parse_from-Holds (suc depth) true cfg d named sound = parse_top-Holds depth cfg d named sound
parse_from-Holds (suc depth) false cfg (list ds) named sound =
    Holds-bind (λ r. Grows named r.1 × AreClosed r.1 r.0) _
      (parse_each (parse_from depth false cfg) ds named) _
      (parse_each-Holds (parse_from depth false cfg) (parse_from-Holds depth false cfg) ds named
        sound)
      (λ r h. h)
parse_from-Holds (suc depth) false cfg d named sound = parse_top-Holds depth cfg d named sound

-- The dictionary at the end has what it had, less the records that are under way.
find_named-to :
    (name : Text) (o : Option (Option Schema)) (named : Named)
    → o ≢ some none
    → find_named name named ≡ o
    → find_named name (from_named_schemas (to_named_schemas named)) ≡ o
unfolding find_named from_named_schemas to_named_schemas
find_named-to name o [] new h = h
find_named-to name o ((n, some s) ∷ rest) new h = elim (Bool-cases (eq_text n name)) [
  | inl same ↦ rw same (
      let found : (if eq_text n name then some (some s) else find_named name rest) ≡ o = h in
      ground (arith, same, found))
  | inr differs ↦ rw differs (find_named-to name o rest new (ground (arith, differs, h)))
]
find_named-to name o ((n, none) ∷ rest) new h = elim (Bool-cases (eq_text n name)) [
  | inl same ↦ absurd (ground (arith, same, h, new))
  | inr differs ↦ find_named-to name o rest new (ground (arith, differs, h))
]

find_named-from :
    (name : Text) (ns : NamedSchemas) → find_named name (from_named_schemas ns) ≢ some none
unfolding find_named from_named_schemas
find_named-from name [] h = cc
find_named-from name ((n, s) ∷ rest) h = elim (Bool-cases (eq_text n name)) [
  | inl same ↦ ground (arith, same, h)
  | inr differs ↦ find_named-from name rest (ground (arith, differs, h))
]

-- A dictionary with no record under way.
abbrev IsComplete : Named → Type 0
IsComplete named = (name : Text) → find_named name named ≢ some none

Includes-to :
    (named : Named)
    → IsComplete named
    → Includes named (from_named_schemas (to_named_schemas named))
unfolding is_known
Includes-to named complete name h =
    rw (is_known, find_named-to name (find_named name named) named (complete name) refl) h

to-Includes :
    (named : Named)
    → IsComplete named
    → IsSound named
    → IsSound (from_named_schemas (to_named_schemas named))
to-Includes named complete sound name s h =
    let found = find_named-to name (find_named name named) named (complete name) refl in
    IsClosed-Includes named _ (Includes-to named complete) s (sound name s (sym found ∙ h))

-- If a schema is parsed by `parse_schema` with a dictionary of named schemas that can all be resolved,
-- then every name in the result, those that it defines included, stands in the dictionary that is
-- left, which still has every name that it had, and whose schemas can all be resolved.
pub parse_schema-IsClosed :
    (depth : ℕ) (force : Bool) (cfg : Settings) (d : Datum) (ns ns' : NamedSchemas) (s : Schema)
    → IsSound (from_named_schemas ns)
    → parse_schema depth force cfg d ns ≡ ok (s, ns')
    → IsClosed (from_named_schemas ns') s
      × Includes (from_named_schemas ns) (from_named_schemas ns')
      × IsSound (from_named_schemas ns')
unfolding parse_schema Holds
parse_schema-IsClosed depth force cfg d ns ns' s sound e =
    let named : Named = from_named_schemas ns in
    let whole : Bool = if force then true else cfg.expand in
    Holds-ok
      (λ (r : Schema × NamedSchemas).
        IsClosed (from_named_schemas r.1) r.0
        × Includes named (from_named_schemas r.1)
        × IsSound (from_named_schemas r.1))
      (parse_schema depth force cfg d ns) (s, ns')
      (Holds-bind (Leaves named) _ (parse_from depth whole cfg d named) _
        (parse_from-Holds depth whole cfg d named sound)
        (λ (t, mid) ((inc, sound', finishes), closed).
          let complete : IsComplete mid = λ name h. find_named-from name ns (finishes name h) in
          (
            IsClosed-Includes mid _ (Includes-to mid complete) t closed,
            (λ name h. Includes-to mid complete name (inc name h)),
            to-Includes mid complete sound',
          )))
      e
