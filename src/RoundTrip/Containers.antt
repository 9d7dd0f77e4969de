-- ===== src/RoundTrip/Containers.antt =====
-- The laws of lists and dictionaries of data, and of the equality of texts.
use fastavro.Prelude.{
  true, [], ◌∷◌, none, some, ◌≡◌, refl, ap, subst, ◌≢◌, arith, Bool-cases, inl, inr,
}
use fastavro.Python.Text.{Text, eq_text}
use fastavro.Datum.{
  Datum, Items, Entries, nil, cons, no_entries, entry, append_item, get, set_entry,
}

pub eq_text→eq : (s t : Text) → eq_text s t ≡ true → s ≡ t
unfolding eq_text
eq_text→eq [] [] h = refl
eq_text→eq [] (b ∷ t) h = cc
eq_text→eq (a ∷ s) [] h = cc
eq_text→eq (a ∷ s) (b ∷ t) h = ground (arith, eq_text→eq s t)

pub eq_text_refl : (s : Text) → eq_text s s ≡ true
unfolding eq_text
eq_text_refl [] = refl
eq_text_refl (a ∷ s) = ground (arith, eq_text_refl s)

pub eq_text_comm : (s t : Text) → eq_text s t ≡ eq_text t s
unfolding eq_text
eq_text_comm [] [] = refl
eq_text_comm [] (b ∷ t) = refl
eq_text_comm (a ∷ s) [] = refl
eq_text_comm (a ∷ s) (b ∷ t) = ground (arith, eq_text_comm s t)

abbrev pub append_items : Items → Items → Items
append_items nil ys = ys
append_items (cons x xs) ys = cons x (append_items xs ys)

pub append_items-append_item :
    (xs : Items) (d : Datum) (ys : Items)
    → append_items (append_item xs d) ys ≡ append_items xs (cons d ys)
append_items-append_item nil d ys = refl
append_items-append_item (cons x xs) d ys = ap (cons x) (append_items-append_item xs d ys)

pub append_items-nil : (xs : Items) → append_items xs nil ≡ xs
append_items-nil nil = refl
append_items-nil (cons x xs) = ap (cons x) (append_items-nil xs)

abbrev pub append_entries : Entries → Entries → Entries
append_entries no_entries fs = fs
append_entries (entry k d es) fs = entry k d (append_entries es fs)

pub append_entries_assoc :
    (es fs gs : Entries)
    → append_entries (append_entries es fs) gs ≡ append_entries es (append_entries fs gs)
append_entries_assoc no_entries fs gs = refl
append_entries_assoc (entry k d es) fs gs = ap (entry k d) (append_entries_assoc es fs gs)

pub append_entries-no_entries : (es : Entries) → append_entries es no_entries ≡ es
append_entries-no_entries no_entries = refl
append_entries-no_entries (entry k d es) = ap (entry k d) (append_entries-no_entries es)

-- Every key stands once, as in any `dict`.
abbrev pub IsDict : Entries → Type 0
IsDict no_entries = Unit {0}
IsDict (entry k d es) = (get k es ≡ none) × IsDict es

get-append_none :
    (k : Text) (es : Entries) (d : Datum) (fs : Entries)
    → get k (append_entries es (entry k d fs)) ≢ none
get-append_none k no_entries d fs = rw (eq_text_refl k) (λ e. cc)
get-append_none k (entry j c es) d fs = elim (Bool-cases (eq_text j k)) [
  | inl same ↦ rw same (λ e. cc)
  | inr other ↦ rw other (get-append_none k es d fs)
]

-- In a dictionary the keys before an entry are other keys.
pub get-before :
    (es : Entries) (k : Text) (d : Datum) (fs : Entries)
    → IsDict (append_entries es (entry k d fs))
    → get k es ≡ none
get-before no_entries k d fs h = refl
get-before (entry j c es) k d fs (fresh, h) = elim (Bool-cases (eq_text j k)) [
  | inl same ↦ absurd (
      get-append_none k es d fs (
        subst (λ (t : Text). get t (append_entries es (entry k d fs)) ≡ none) (eq_text→eq j k same)
          fresh))
  | inr other ↦ rw other (get-before es k d fs h)
]

pub set_entry-fresh :
    (k : Text) (d : Datum) (es : Entries)
    → get k es ≡ none
    → set_entry k d es ≡ append_entries es (entry k d no_entries)
set_entry-fresh k d no_entries h = refl
set_entry-fresh k d (entry j c es) h = elim (Bool-cases (eq_text j k)) [
  | inl same ↦ cc (rw same at h)
  | inr other ↦ rw other (ap (entry j c) (set_entry-fresh k d es (rw other at h)))
]

-- The value of a key is the one that stands with it.
pub get-in :
    (es : Entries) (k : Text) (d : Datum) (fs : Entries)
    → get k es ≡ none
    → get k (append_entries es (entry k d fs)) ≡ some d
get-in no_entries k d fs h = rw (eq_text_refl k)
get-in (entry j c es) k d fs h = elim (Bool-cases (eq_text j k)) [
  | inl same ↦ cc (rw same at h)
  | inr other ↦ rw other (get-in es k d fs (rw other at h))
]
