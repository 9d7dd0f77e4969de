-- ===== src/Parsing/Heights.antt =====
-- How deep the lists and dictionaries of a schema are in one another, before it is parsed.
use Prim.Native.Nat.{max}
use fastavro.Prelude.{
  ℕ, suc, ◌≤◌, ◌<◌, [], ◌∷◌, Option, none, some, ◌≡◌, refl, ap, subst, arith, Bool-cases, inl, inr,
}
use fastavro.Python.Errors.{ok, from_option, key_error}
use fastavro.Python.Text.{Text, text, eq_text}
use fastavro.Datum.{
  Datum, bytes, str, list, tuple, dict, Items, nil, cons, Entries, no_entries, entry, get, as_dict,
  iterate, chars, byte_items, key_items,
}
use fastavro.Parsing.Parse.{fields_of}

-- How deep lists and dictionaries are in one another.
unfoldable mutual
  pub height : Datum → ℕ
  height (list ds) = suc (items_height ds)
  height (tuple ds) = suc (items_height ds)
  height (dict es) = suc (entries_height es)
  height d = 0

  pub items_height : Items → ℕ
  items_height nil = 0
  items_height (cons d ds) = max (height d) (items_height ds)

  pub entries_height : Entries → ℕ
  entries_height no_entries = 0
  entries_height (entry k d es) = max (height d) (entries_height es)

get-height :
    (k : Text) (es : Entries) (d : Datum) → get k es ≡ some d → height d ≤ entries_height es
unfolding height
get-height k no_entries d h = absurd cc
get-height k (entry j c es) d h = elim (Bool-cases (eq_text j k)) [
  | inl same ↦
      let here : c ≡ d = ground (arith, same, h) in
      subst (λ x. height x ≤ max (height c) (entries_height es)) here (omega arith)
  | inr differs ↦
      let below : height d ≤ entries_height es = get-height k es d (ground (arith, differs, h)) in
      omega (arith, below)
]

chars-height : (s : Text) → items_height (chars s) ≡ 0
unfolding height
chars-height [] = refl
chars-height (c ∷ s) = omega (arith, chars-height s)

byte_items-height : (s : Text) → items_height (byte_items s) ≡ 0
unfolding height
byte_items-height [] = refl
byte_items-height (c ∷ s) = omega (arith, byte_items-height s)

key_items-height : (es : Entries) → items_height (key_items es) ≡ 0
unfolding height
key_items-height no_entries = refl
key_items-height (entry k d es) = omega (arith, key_items-height es)

-- What a loop goes through is not higher than what it goes through it of.
iterate-height : (d : Datum) (ds : Items) → iterate d ≡ ok ds → items_height ds ≤ height d
unfolding height
iterate-height (list ds) es h =
    let same : ds ≡ es = cc in
    subst (λ xs. items_height xs ≤ suc (items_height ds)) same (omega arith)
iterate-height (tuple ds) es h =
    let same : ds ≡ es = cc in
    subst (λ xs. items_height xs ≤ suc (items_height ds)) same (omega arith)
iterate-height (str s) es h =
    let same : chars s ≡ es = cc in
    subst (λ xs. items_height xs ≤ 0) same (omega (arith, chars-height s))
iterate-height (bytes s) es h =
    let same : byte_items s ≡ es = cc in
    subst (λ xs. items_height xs ≤ 0) same (omega (arith, byte_items-height s))
iterate-height (dict s) es h =
    let same : key_items s ≡ es = cc in
    subst (λ xs. items_height xs ≤ suc (entries_height s)) same (omega (arith, key_items-height s))
iterate-height d es h = absurd cc

pub as_dict-height : (d : Datum) (es : Entries) → as_dict d ≡ ok es → entries_height es < height d
unfolding height
as_dict-height (dict es) fs h =
    let same : es ≡ fs = cc in
    subst (λ xs. entries_height xs < suc (entries_height es)) same (omega arith)
as_dict-height d es h = absurd cc

from_option-ok : {A : Type 0} (o : Option A) (a : A) → from_option key_error o ≡ ok a → o ≡ some a
from_option-ok none a h = absurd cc
from_option-ok (some b) a h = let same : b ≡ a = cc in ap some same

pub entry-height :
    (k : Text) (es : Entries) (d : Datum)
    → from_option key_error (get k es) ≡ ok d
    → height d ≤ entries_height es
entry-height k es d h = get-height k es d (from_option-ok (get k es) d h)

-- The items of a value, none if there is none.
given-height :
    (n : ℕ) (o : Option Datum) (ds : Items)
    → ((d : Datum) → o ≡ some d → height d ≤ n)
    → (elim o [ none ↦ ok nil | some d ↦ iterate d ]) ≡ ok ds
    → items_height ds ≤ n
unfolding height
given-height n none ds below h =
    let same : nil ≡ ds = cc in subst (λ xs. items_height xs ≤ n) same (omega arith)
given-height n (some d) ds below h = omega (arith, below d refl, iterate-height d ds h)

pub fields_of-height :
    (es : Entries) (ds : Items) → fields_of es ≡ ok ds → items_height ds ≤ entries_height es
unfolding fields_of
fields_of-height es ds h =
    given-height (entries_height es) (get (text "fields") es) ds (get-height (text "fields") es) h
