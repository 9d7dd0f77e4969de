-- ===== src/Python/Errors/InRounds.antt =====
-- Computations whose loops are given enough rounds.
use fastavro.Prelude.{Bool, true, false, if◌then◌else◌, Option, none, some}
use fastavro.Python.Errors.{Result, ok, err, bind, from_option, Error, out_of_rounds}

-- An exception of the program.
abbrev pub IsGenuine : Error → Type 0
IsGenuine out_of_rounds = ⊥
IsGenuine e = Unit

unfoldable pub InRounds {ℓ} : {A : Type ℓ} → Result A → Type 0
InRounds (ok a) = Unit
InRounds (err e) = IsGenuine e

pub InRounds-bind {ℓ κ} :
    {A : Type ℓ} {B : Type κ} (m : Result A) (f : A → Result B)
    → InRounds m
    → ((a : A) → InRounds (f a))
    → InRounds (bind m f)
unfolding InRounds
InRounds-bind (ok a) f h g = g a
InRounds-bind (err e) f h g = h

pub InRounds-option {ℓ κ} :
    {A : Type ℓ} {B : Type κ} (o : Option A) (n : Result B) (f : A → Result B)
    → InRounds n
    → ((a : A) → InRounds (f a))
    → InRounds (elim o [ none ↦ n | some a ↦ f a ])
InRounds-option none n f h g = h
InRounds-option (some a) n f h g = g a

pub InRounds-if {ℓ} :
    {A : Type ℓ} (b : Bool) (x y : Result A)
    → InRounds x
    → InRounds y
    → InRounds (if b then x else y)
InRounds-if true x y h k = h
InRounds-if false x y h k = k

pub InRounds-from_option {ℓ} :
    {A : Type ℓ} (e : Error) (o : Option A) → IsGenuine e → InRounds (from_option e o)
unfolding InRounds
InRounds-from_option e none h = h
InRounds-from_option e (some a) h = tt
