-- ===== src/Python/Errors.antt =====
-- Exceptions as values: a computation that returns, and one that writes.
pub mod Ends
pub mod InRounds
use fastavro.Prelude.{List, [], ◌++◌, ◌≡◌, refl, subst, ℕ, Option, none, some}

-- The exceptions by their classes; messages are left out.
pub data Error : Type 0 where
  eof_error struct_error type_error value_error key_error index_error : Error
  attribute_error overflow_error unicode_error zero_division_error : Error
  schema_resolution_error schema_parse_error validation_error : Error
  unknown_type : List ℕ → Error
  -- Python's limit on the depth of calls
  recursion_error : Error
  -- no exception of the program: a loop of the model ran out of rounds
  out_of_rounds : Error

pub data Result {ℓ} (A : Type ℓ) : Type ℓ where
  ok : A → Result A
  err : Error → Result A

abbrev pub bind {ℓ κ} : {A : Type ℓ} {B : Type κ} → Result A → (A → Result B) → Result B
bind (ok a) f = f a
bind (err e) f = err e

-- The first of two steps that returned.
pub bind-eq_ok {ℓ κ} :
    {A : Type ℓ} {B : Type κ} (m : Result A) (f : A → Result B) (b : B)
    → bind m f ≡ ok b
    → (a : A) × (m ≡ ok a) × (f a ≡ ok b)
bind-eq_ok (ok a) f b h = (a, refl, h)
bind-eq_ok (err e) f b h = cc

abbrev pub from_option {ℓ} : {A : Type ℓ} → Error → Option A → Result A
from_option e none = err e
from_option e (some a) = ok a

-- What a call has written to its file: all of it, or what came before an exception.
pub data Written : Type 0 where
  wrote : List ℕ → Written
  raised : Error → List ℕ → Written

abbrev pub after : List ℕ → Written → Written
after out (wrote more) = wrote (out ++ more)
after out (raised e more) = raised e (out ++ more)

-- In a `do` block: one write after another, and a value that a write needs.
infixl 5 ◌>>=◌ ◌>>◌
abbrev pub ◌>>◌ : Written → Written → Written
wrote out >> k = after out k
raised e out >> k = raised e out

abbrev pub ◌>>=◌ {ℓ} : {A : Type ℓ} → Result A → (A → Written) → Written
ok a >>= f = f a
err e >>= f = raised e []

-- The bytes that reached the file, whatever the outcome.
abbrev pub output : Written → List ℕ
output (wrote out) = out
output (raised e out) = out

-- What is true of the value, if one is returned.
unfoldable pub Holds {ℓ κ} : {A : Type ℓ} → (A → Type κ) → Result A → Type κ
Holds P (ok a) = P a
Holds P (err e) = Unit {κ}

pub Holds-bind {ℓ κ ν μ} :
    {A : Type ℓ} {B : Type κ} (Q : A → Type ν) (P : B → Type μ) (m : Result A) (f : A → Result B)
    → Holds Q m
    → ((a : A) → Q a → Holds P (f a))
    → Holds P (bind m f)
unfolding Holds
Holds-bind Q P (ok a) f h g = g a h
Holds-bind Q P (err e) f h g = tt

-- A step that only has to return.
pub Holds-after {ℓ κ μ} :
    {A : Type ℓ} {B : Type κ} (P : B → Type μ) (m : Result A) (f : A → Result B)
    → ((a : A) → Holds P (f a))
    → Holds P (bind m f)
unfolding Holds
Holds-after P (ok a) f g = g a
Holds-after P (err e) f g = tt

pub Holds-ok {ℓ κ} :
    {A : Type ℓ} (P : A → Type κ) (m : Result A) (a : A) → Holds P m → m ≡ ok a → P a
unfolding Holds
Holds-ok P m a h e = subst (Holds P) e h
