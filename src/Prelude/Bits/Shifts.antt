-- ===== src/Prelude/Bits/Shifts.antt =====
-- Bit operations on shifted numbers.
use Prim.Native.Nat.{
  ℕ, zero, suc, ◌+◌, ◌*◌, ◌/◌, ◌%◌, ◌^◌, ◌≤◌, ◌<◌, max, bit_or, bit_xor, bit_or-bitwise,
}
use mathlib.Core.Path.{◌≡◌, refl, ap, ◌∙◌}
use native.Mathlib.Omega.{arith}
use native.Mathlib.Nat.{pow-suc, max_comm}
use fastavro.Prelude.Bits.{half_double, bit_or-halves, bit_xor-halves, bit_or-zero}

bit_xor-double : (a b : ℕ) → bit_xor (a * 2) (b * 2) ≡ bit_xor a b * 2
bit_xor-double a b = by_parts (a * 2) (b * 2) (omega arith) (omega arith)
  where
    even : (x a : ℕ) → x ≡ a * 2 → x % 2 ≡ 0
    even x a p = omega arith

    by_parts : (x y : ℕ) → x ≡ a * 2 → y ≡ b * 2 → bit_xor x y ≡ bit_xor a b * 2
    by_parts x y p q =
        bit_xor-halves x y
        ∙ rw (half_double x a p, half_double y b q, even x a p, even y b q) (omega arith)

times_one : (a : ℕ) → a * 1 ≡ a
times_one a = omega arith

-- A shift of both sides shifts the result.
pub bit_xor-shift : (i a b : ℕ) → bit_xor (a * 2 ^ i) (b * 2 ^ i) ≡ bit_xor a b * 2 ^ i
bit_xor-shift zero a b = rw (times_one a, times_one b, times_one (bit_xor a b)) refl
bit_xor-shift (suc i) a b =
    rw (pow-suc 2 i, twice a, twice b, twice (bit_xor a b))
      (bit_xor-double (a * 2 ^ i) (b * 2 ^ i) ∙ ap (λ (t : ℕ). t * 2) (bit_xor-shift i a b))
  where
    twice : (c : ℕ) → c * (2 ^ i * 2) ≡ c * 2 ^ i * 2
    twice c = omega arith

or_comm_upto : (k x y : ℕ) → x ≤ k → bit_or x y ≡ bit_or y x
or_comm_upto k zero y h = omega (arith, bit_or-bitwise 0 y, bit_or-zero y)
or_comm_upto zero (suc x) y h = absurd (omega arith)
or_comm_upto (suc k) (suc x) y h = omega (
  arith,
  bit_or-halves (suc x) y,
  bit_or-halves y (suc x),
  or_comm_upto k (suc x / 2) (y / 2) (omega arith),
  max_comm (suc x % 2) (y % 2),
)

pub bit_or_comm : (x y : ℕ) → bit_or x y ≡ bit_or y x
bit_or_comm x y = or_comm_upto x x y (omega arith)

pub bit_or-parts :
    (x y a b c d : ℕ)
    → x ≡ a * 2 + c
    → y ≡ b * 2 + d
    → c < 2
    → d < 2
    → bit_or x y ≡ bit_or a b * 2 + max c d
bit_or-parts x y a b c d p q hc hd =
    bit_or-halves x y ∙ rw (half x a c p hc, half y b d q hd, last x a c p hc, last y b d q hd) refl
  where
    half : (x a c : ℕ) → x ≡ a * 2 + c → c < 2 → x / 2 ≡ a
    half x a c p h = omega arith

    last : (x a c : ℕ) → x ≡ a * 2 + c → c < 2 → x % 2 ≡ c
    last x a c p h = omega arith
