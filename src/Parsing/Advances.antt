-- ===== src/Parsing/Advances.antt =====
-- How the state of a parse goes on: no name is lost, what is stored can be resolved, and a record that
-- is begun is ended (`named_schemas` of `_parse_schema`, fastavro/_schema_py.py).
use fastavro.Prelude.{true, none, some, ◌≡◌, refl, sym, subst, ◌∙◌, Bool-cases, inl, inr}
use fastavro.Python.Errors.{Result, Holds}
use fastavro.Python.Text.{Text}
use fastavro.Schema.{Schema, contains_text}
use fastavro.Parsing.Names.{Named, Parsing, find_named, is_known, put_named, define_name, store}
use fastavro.Parsing.Parse.{parse}
use fastavro.Parsing.Closed.{
  IsClosed, Includes, Finishes, Finishes-put_named, found-there, Includes-put_named, IsSound,
  IsSound-put_named,
}

-- From one state to the next: no name is lost, and what is stored can be resolved.
abbrev pub Grows : Named → Named → Type 0
Grows named more = Includes named more × IsSound more × Finishes named more

abbrev pub Advances : Parsing → Parsing → Type 0
Advances st st' = Grows st.named st'.named

pub Grows-trans : (a b c : Named) → Grows a b → Grows b c → Grows a c
Grows-trans a b c (i, s, f) (j, t, g) =
    ((λ name h. j name (i name h)), t, (λ name h. f name (g name h)))

pub Grows-refl : (named : Named) → IsSound named → Grows named named
Grows-refl named sound = ((λ name h. h), sound, (λ name h. h))

abbrev pub IsParsed : Parsing → Schema × Parsing → Type 0
IsParsed st r = Advances st r.1 × IsClosed r.1.named r.0

abbrev pub Resolves : (Parsing → Result (Schema × Parsing)) → Type 0
Resolves parse = (st : Parsing) → IsSound st.named → Holds (IsParsed st) (parse st)

pub and_then : (a b c : Parsing) → Advances a b → Advances b c → Advances a c
and_then a b c = Grows-trans a.named b.named c.named

pub unchanged : (st : Parsing) → IsSound st.named → Advances st st
unchanged st sound = Grows-refl st.named sound

pub define_name-Holds :
    (name : Text) (st : Parsing) → Holds (λ st'. st'.named ≡ st.named) (define_name name st)
unfolding define_name Holds
define_name-Holds name st = elim (Bool-cases (contains_text name st.names)) [
  | inl again ↦ rw again tt
  | inr new ↦ rw new refl
]

pub same_named : (st mid : Parsing) → mid.named ≡ st.named → IsSound st.named → Advances st mid
same_named st mid same sound = (
  (λ name h. subst (λ n. is_known name n ≡ true) (sym same) h),
  subst IsSound (sym same) sound,
  (λ name h. subst (λ n. find_named name n ≡ some none) same h),
)

-- A named type that is stored under its name.
pub store-Holds :
    (name : Text) (s : Schema) (st mid : Parsing)
    → Advances st mid
    → IsClosed (store name (some s) mid).named s
    → IsParsed st (s, store name (some s) mid)
unfolding store
store-Holds name s st mid (inc, sound, finishes) closed = (
  (
    (λ other h. Includes-put_named name (some s) mid.named other (inc other h)),
    IsSound-put_named name (some s) mid.named sound
        (λ t e. subst (IsClosed (put_named name (some s) mid.named)) (let it = e in cc) closed),
    Finishes-put_named name s st.named mid.named (λ other differs. finishes other),
  ),
  closed,
)

-- A record is known from the moment on that its fields are parsed.
pub begin-Advances :
    (name : Text) (st mid : Parsing)
    → Advances st mid
    → Includes st.named (store name none mid).named × IsSound (store name none mid).named
unfolding store
begin-Advances name st mid (inc, sound, finishes) = (
  (λ other h. Includes-put_named name none mid.named other (inc other h)),
  IsSound-put_named name none mid.named sound (λ t e. absurd cc),
)

-- The record is stored again when its fields are parsed.
pub record_end-Holds :
    (name : Text) (s : Schema) (st mid last : Parsing)
    → Advances st mid
    → Advances (store name none mid) last
    → IsClosed (store name (some s) last).named s
    → IsParsed st (s, store name (some s) last)
unfolding store
record_end-Holds name s st mid last (inc, sound, finishes) (later, sound', finishes') closed = (
  (
    (λ other h.
        Includes-put_named name (some s) last.named other
          (later other (Includes-put_named name none mid.named other (inc other h)))),
    IsSound-put_named name (some s) last.named sound'
        (λ t e. subst (IsClosed (put_named name (some s) last.named)) (let it = e in cc) closed),
    Finishes-put_named name s st.named last.named (λ other differs h.
        finishes other (sym (found-there name other none mid.named differs) ∙ finishes' other h)),
  ),
  closed,
)
