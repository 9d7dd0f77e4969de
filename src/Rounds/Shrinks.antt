-- ===== src/Rounds/Shrinks.antt =====
-- Readers that end, and leave no more bytes than they were given.
use fastavro.Prelude.{ℕ, ◌≤◌, length, arith}
use fastavro.Python.Errors.{Result, ok, err, bind}
use fastavro.Python.Errors.InRounds.{IsGenuine, InRounds}
use fastavro.Python.Text.{Bytes}
use fastavro.Python.Files.{Reader, pure, fail, ◌>>=◌}

-- What is left is at most n bytes.
unfoldable pub Bounded {ℓ} : {A : Type ℓ} → ℕ → Result (A × Bytes) → Type 0
Bounded n (ok (a, rest)) = length rest ≤ n
Bounded n (err e) = IsGenuine e

abbrev pub Shrinks {ℓ} : {A : Type ℓ} → Reader A → Type 0
Shrinks r = (fo : Bytes) → Bounded (length fo) (r fo)

pub Bounded-weaken {ℓ} :
    {A : Type ℓ} (m n : ℕ) (r : Result (A × Bytes)) → m ≤ n → Bounded m r → Bounded n r
unfolding Bounded
Bounded-weaken m n (ok (a, rest)) le h = omega (arith, le, h)
Bounded-weaken m n (err e) le h = h

pub Bounded-bind {ℓ κ} :
    {A : Type ℓ} {B : Type κ} (n : ℕ) (r : Result (A × Bytes)) (f : A × Bytes → Result (B × Bytes))
    → Bounded n r
    → ((a : A) (rest : Bytes) → length rest ≤ n → Bounded n (f (a, rest)))
    → Bounded n (bind r f)
unfolding Bounded
Bounded-bind n (ok (a, rest)) f h g = g a rest h
Bounded-bind n (err e) f h g = h

pub Shrinks-bind {ℓ κ} :
    {A : Type ℓ} {B : Type κ} (m : Reader A) (f : A → Reader B)
    → Shrinks m
    → ((a : A) → Shrinks (f a))
    → Shrinks (m >>= f)
Shrinks-bind m f h g fo =
    Bounded-bind (length fo) (m fo) _ (h fo)
      (λ a rest le. Bounded-weaken (length rest) (length fo) (f a rest) le (g a rest))

pub Shrinks-pure {ℓ} : {A : Type ℓ} (a : A) → Shrinks (pure a)
unfolding Bounded
Shrinks-pure a fo = omega arith

pub fail-Bounded {ℓ} : {A : Type ℓ} (r : Result A) → InRounds r → Shrinks (fail r)
unfolding Bounded InRounds
fail-Bounded (ok a) h fo = omega arith
fail-Bounded (err e) h fo = h
