-- ===== src/Python/Errors/Ends.antt =====
-- Computations that do not run into the limit on the depth of calls.
use fastavro.Prelude.{Bool, true, false, if◌then◌else◌, Option, none, some, ◌≡◌, refl}
use fastavro.Python.Errors.{Result, ok, err, bind, from_option, Error, recursion_error}

abbrev IsOther : Error → Type 0
IsOther recursion_error = ⊥
IsOther e = Unit

-- Whatever the outcome is, it is not that the depth was too small.
unfoldable pub Ends {ℓ} : {A : Type ℓ} → Result A → Type 0
Ends (ok a) = Unit
Ends (err e) = IsOther e

pub Ends-bind {ℓ κ} :
    {A : Type ℓ} {B : Type κ} (m : Result A) (f : A → Result B)
    → Ends m
    → ((a : A) → m ≡ ok a → Ends (f a))
    → Ends (bind m f)
unfolding Ends
Ends-bind (ok a) f h g = g a refl
Ends-bind (err e) f h g = h

pub Ends-option {ℓ κ} :
    {A : Type ℓ} {B : Type κ} (o : Option A) (n : Result B) (f : A → Result B)
    → Ends n
    → ((a : A) → o ≡ some a → Ends (f a))
    → Ends (elim o [ none ↦ n | some a ↦ f a ])
Ends-option none n f h g = h
Ends-option (some a) n f h g = g a refl

pub Ends-if {ℓ} :
    {A : Type ℓ} (b : Bool) (x y : Result A) → Ends x → Ends y → Ends (if b then x else y)
Ends-if true x y h k = h
Ends-if false x y h k = k

pub Ends-from_option {ℓ} :
    {A : Type ℓ} (e : Error) (o : Option A) → Ends {A = A} (err e) → Ends (from_option e o)
unfolding Ends
Ends-from_option e none h = h
Ends-from_option e (some a) h = tt
