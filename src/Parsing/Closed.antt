-- ===== src/Parsing/Closed.antt =====
-- Every name in a schema stands in the dictionary of named schemas: what that means and what keeps it
-- when the dictionary grows (fastavro/_schema_py.py).
use fastavro.Prelude.{
  Bool, true, false, [], ◌∷◌, if◌then◌else◌, Option, none, some, ◌≡◌, refl, sym, ◌∙◌, Bool-cases,
  inl, inr,
}
use fastavro.Python.Text.{Text, eq_text}
use fastavro.Schema.{
  Schema, Schemas, Fields, prim, ref, union, annotated, array, map, fixed, enum, record_schema,
  no_schemas, also, no_fields, field,
}
use fastavro.RoundTrip.Containers.{eq_text→eq, eq_text_refl, eq_text_comm}
use fastavro.Parsing.Names.{Named, find_named, is_known, put_named}

-- The names of a schema, those that it defines included, are known.
unfoldable mutual
  pub IsClosed : Named → Schema → Type 0
  IsClosed named (prim p) = Unit
  IsClosed named (ref name) = is_known name named ≡ true
  IsClosed named (union ss) = AreClosed named ss
  IsClosed named (annotated p a) = Unit
  IsClosed named (array a s) = IsClosed named s
  IsClosed named (map a s) = IsClosed named s
  IsClosed named (fixed a name aliases size) = is_known name named ≡ true
  IsClosed named (enum a name aliases symbols default) = is_known name named ≡ true
  IsClosed named (record_schema a f name aliases fs) =
      (is_known name named ≡ true) × HasClosed named fs

  pub AreClosed : Named → Schemas → Type 0
  AreClosed named no_schemas = Unit
  AreClosed named (also s ss) = IsClosed named s × AreClosed named ss

  pub HasClosed : Named → Fields → Type 0
  HasClosed named no_fields = Unit
  HasClosed named (field name s default aliases fs) = IsClosed named s × HasClosed named fs

-- No name is lost.
abbrev pub Includes : Named → Named → Type 0
Includes named more = (name : Text) → is_known name named ≡ true → is_known name more ≡ true

mutual
  unfolding IsClosed

  pub IsClosed-Includes :
      (named more : Named) → Includes named more → (s : Schema) → IsClosed named s → IsClosed more s
  IsClosed-Includes named more inc (prim p) h = tt
  IsClosed-Includes named more inc (ref name) h = inc name h
  IsClosed-Includes named more inc (union ss) h = AreClosed-Includes named more inc ss h
  IsClosed-Includes named more inc (annotated p a) h = tt
  IsClosed-Includes named more inc (array a s) h = IsClosed-Includes named more inc s h
  IsClosed-Includes named more inc (map a s) h = IsClosed-Includes named more inc s h
  IsClosed-Includes named more inc (fixed a name aliases size) h = inc name h
  IsClosed-Includes named more inc (enum a name aliases symbols default) h = inc name h
  IsClosed-Includes named more inc (record_schema a f name aliases fs) (h, hs) =
      (inc name h, HasClosed-Includes named more inc fs hs)

  pub AreClosed-Includes :
      (named more : Named)
      → Includes named more
      → (ss : Schemas) → AreClosed named ss
      → AreClosed more ss
  AreClosed-Includes named more inc no_schemas h = tt
  AreClosed-Includes named more inc (also s ss) (h, hs) =
      (IsClosed-Includes named more inc s h, AreClosed-Includes named more inc ss hs)

  pub HasClosed-Includes :
      (named more : Named)
      → Includes named more
      → (fs : Fields) → HasClosed named fs
      → HasClosed more fs
  HasClosed-Includes named more inc no_fields h = tt
  HasClosed-Includes named more inc (field name s default aliases fs) (h, hs) =
      (IsClosed-Includes named more inc s h, HasClosed-Includes named more inc fs hs)

if_twice {ℓ} :
    {A : Type ℓ} (b : Bool) (x y z : A)
    → (if b then x else y) ≡ (if b then x else if b then z else y)
if_twice true x y z = refl
if_twice false x y z = refl

-- What is found after an assignment.
pub find_named-put_named :
    (name other : Text) (s : Option Schema) (named : Named)
    → find_named other (put_named name s named)
      ≡ (if eq_text name other then some s else find_named other named)
unfolding find_named put_named
find_named-put_named name other s [] = refl
find_named-put_named name other s ((n, t) ∷ rest) = elim (Bool-cases (eq_text n name)) [
  | inl same ↦
      rw (same, eq_text→eq n name same)
        (if_twice (eq_text name other) (some s) (find_named other rest) (some t))
  | inr differs ↦ elim (Bool-cases (eq_text n other)) [
    | inl found ↦
        rw (differs, found, sym (eq_text→eq n other found), eq_text_comm name n, differs) refl
    | inr missed ↦ rw (differs, missed) (find_named-put_named name other s rest)
  ]
]

found-here :
    (name other : Text) (s : Option Schema) (named : Named)
    → eq_text name other ≡ true
    → find_named other (put_named name s named) ≡ some s
found-here name other s named same = rw (find_named-put_named name other s named, same) refl

pub found-there :
    (name other : Text) (s : Option Schema) (named : Named)
    → eq_text name other ≡ false
    → find_named other (put_named name s named) ≡ find_named other named
found-there name other s named differs = rw (find_named-put_named name other s named, differs) refl

-- What an assignment keeps, and what it adds.
pub Includes-put_named :
    (name : Text) (s : Option Schema) (named : Named) → Includes named (put_named name s named)
unfolding is_known
Includes-put_named name s named other h = elim (Bool-cases (eq_text name other)) [
  | inl same ↦ rw (is_known, find_named-put_named name other s named, same) refl
  | inr differs ↦ rw (is_known, find_named-put_named name other s named, differs) h
]

pub is_known-put_named :
    (name : Text) (s : Option Schema) (named : Named)
    → is_known name (put_named name s named) ≡ true
unfolding is_known
is_known-put_named name s named =
    rw (is_known, find_named-put_named name name s named, eq_text_refl name) refl

-- All schemas of a dictionary are closed.
abbrev pub IsSound : Named → Type 0
IsSound named =
    (name : Text) (s : Schema) → find_named name named ≡ some (some s) → IsClosed named s

pub IsSound-put_named :
    (name : Text) (s : Option Schema) (named : Named)
    → IsSound named
    → ((t : Schema) → s ≡ some t → IsClosed (put_named name s named) t)
    → IsSound (put_named name s named)
IsSound-put_named name s named sound new other t h = elim (Bool-cases (eq_text name other)) [
  | inl same ↦ new t (let found = found-here name other s named same in cc)
  | inr differs ↦
      IsClosed-Includes named (put_named name s named) (Includes-put_named name s named) t
        (sound other t (sym (found-there name other s named differs) ∙ h))
]

-- A record whose parse is under way was so before.
abbrev pub Finishes : Named → Named → Type 0
Finishes named more =
    (name : Text) → find_named name more ≡ some none → find_named name named ≡ some none

-- A record that is stored again is no longer under way, whatever it was at the start.
pub Finishes-put_named :
    (name : Text) (s : Schema) (named more : Named)
    → ((other : Text)
        → eq_text name other ≡ false
        → find_named other more ≡ some none
        → find_named other named ≡ some none)
    → Finishes named (put_named name (some s) more)
Finishes-put_named name s named more rest other h = elim (Bool-cases (eq_text name other)) [
  | inl same ↦ absurd (let found = found-here name other (some s) more same in cc)
  | inr differs ↦ rest other differs (sym (found-there name other (some s) more differs) ∙ h)
]
