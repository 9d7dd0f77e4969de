-- ===== src/Prelude/Bits.antt =====
-- The bit operations as arithmetic: from the digit recursion that a native operation stands for to
-- the masks, the shifts and the disjoint sums that the code uses.
pub mod Shifts
pub mod Xor
use Prim.Native.Nat.{ℕ, zero, suc, ◌+◌, ◌-◌, ◌*◌, ◌/◌, ◌%◌, ◌^◌, ◌≤◌, ◌<◌, min, max}
use Prim.Native.Nat.{bit_and, bit_or, bit_xor, digits, bitwise, differ}
use Prim.Native.Nat.{bit_and-bitwise, bit_or-bitwise, bit_xor-bitwise}
use mathlib.Core.Path.{◌≡◌, refl, ap}
use native.Mathlib.Omega.{arith}
use native.Mathlib.Nat.{pow-suc}

-- One more unit of fuel than the first number needs changes nothing.
module _ (ends : ℕ → ℕ) (bit : ℕ → ℕ → ℕ) where
  digits-irrelevant : (j k x y : ℕ) → x ≤ j → x ≤ k → digits ends bit j x y ≡ digits ends bit k x y
  digits-irrelevant zero zero x y p q = refl
  digits-irrelevant (suc j) zero zero y p q = refl
  digits-irrelevant (suc j) zero (suc x) y p q = absurd (omega arith)
  digits-irrelevant zero (suc k) zero y p q = refl
  digits-irrelevant zero (suc k) (suc x) y p q = absurd (omega arith)
  digits-irrelevant (suc j) (suc k) zero y p q = refl
  digits-irrelevant (suc j) (suc k) (suc x) y p q =
      omega (arith, digits-irrelevant j k (suc x / 2) (y / 2) (omega arith) (omega arith))

  bitwise_step :
      (x y : ℕ)
      → bitwise ends bit (suc x) y
        ≡ bitwise ends bit (suc x / 2) (y / 2) * 2 + bit (suc x % 2) (y % 2)
  bitwise_step x y =
      let half = suc x / 2 in
      omega (arith, digits-irrelevant x half half (y / 2) (omega arith) (omega arith))

pub bit_or-halves : (x y : ℕ) → bit_or x y ≡ bit_or (x / 2) (y / 2) * 2 + max (x % 2) (y % 2)
bit_or-halves zero y = simp bit_or-bitwise (omega arith)
bit_or-halves (suc x) y = simp bit_or-bitwise (bitwise_step (λ b. b) max x y)

pub bit_and-halves : (x y : ℕ) → bit_and x y ≡ bit_and (x / 2) (y / 2) * 2 + min (x % 2) (y % 2)
bit_and-halves zero y = simp bit_and-bitwise (omega arith)
bit_and-halves (suc x) y = simp bit_and-bitwise (bitwise_step (λ b. 0) min x y)

pub bit_xor-halves : (x y : ℕ) → bit_xor x y ≡ bit_xor (x / 2) (y / 2) * 2 + differ (x % 2) (y % 2)
bit_xor-halves zero y = simp bit_xor-bitwise (differ-zero (y / 2) (y % 2) y (omega arith))
  where
    differ-zero : (h d w : ℕ) → w ≡ h * 2 + d → w ≡ h * 2 + differ zero d
    differ-zero h d w e = e
bit_xor-halves (suc x) y = simp bit_xor-bitwise (bitwise_step (λ b. b) differ x y)

-- Laws at zero, by halving.
and_zero_upto : (k x : ℕ) → x ≤ k → bit_and x 0 ≡ 0
and_zero_upto k zero h = refl
and_zero_upto zero (suc x) h = absurd (omega arith)
and_zero_upto (suc k) (suc x) h =
    omega (arith, bit_and-halves (suc x) 0, and_zero_upto k (suc x / 2) (omega arith))

or_zero_upto : (k x : ℕ) → x ≤ k → bit_or x 0 ≡ x
or_zero_upto k zero h = refl
or_zero_upto zero (suc x) h = absurd (omega arith)
or_zero_upto (suc k) (suc x) h =
    omega (arith, bit_or-halves (suc x) 0, or_zero_upto k (suc x / 2) (omega arith))

differ_zero : (d : ℕ) → differ d 0 ≡ d
differ_zero zero = refl
differ_zero (suc d) = refl

xor_zero_upto : (k x : ℕ) → x ≤ k → bit_xor x 0 ≡ x
xor_zero_upto k zero h = refl
xor_zero_upto zero (suc x) h = absurd (omega arith)
xor_zero_upto (suc k) (suc x) h = omega (
  arith,
  bit_xor-halves (suc x) 0,
  differ_zero (suc x % 2),
  xor_zero_upto k (suc x / 2) (omega arith),
)

pub bit_and-zero : (x : ℕ) → bit_and x 0 ≡ 0
bit_and-zero x = and_zero_upto x x (omega arith)

pub bit_or-zero : (x : ℕ) → bit_or x 0 ≡ x
bit_or-zero x = or_zero_upto x x (omega arith)

pub bit_xor-zero : (x : ℕ) → bit_xor x 0 ≡ x
bit_xor-zero x = xor_zero_upto x x (omega arith)

xor_last : (d : ℕ) → d < 2 → differ d 1 ≡ 1 - d
xor_last zero h = refl
xor_last (suc zero) h = refl
xor_last (suc (suc d)) h = absurd (omega arith)

-- `x ^ 1` changes the last digit.
pub bit_xor-one : (n d : ℕ) → d < 2 → bit_xor (2 * n + d) 1 ≡ 2 * n + (1 - d)
bit_xor-one n d h = omega (
  arith,
  bit_xor-halves (2 * n + d) 1,
  bit_xor-zero ((2 * n + d) / 2),
  xor_last ((2 * n + d) % 2) (omega arith),
)

-- `x & 1`, `x & 0x7f`: a mask of ones is a remainder.
pub bit_and-1 : (x : ℕ) → bit_and x 1 ≡ x % 2
bit_and-1 x = omega (arith, bit_and-halves x 1, bit_and-zero (x / 2))

bit_and-3 : (x : ℕ) → bit_and x 3 ≡ x % 4
bit_and-3 x = omega (arith, bit_and-halves x 3, bit_and-1 (x / 2))

bit_and-7 : (x : ℕ) → bit_and x 7 ≡ x % 8
bit_and-7 x = omega (arith, bit_and-halves x 7, bit_and-3 (x / 2))

bit_and-15 : (x : ℕ) → bit_and x 15 ≡ x % 16
bit_and-15 x = omega (arith, bit_and-halves x 15, bit_and-7 (x / 2))

bit_and-31 : (x : ℕ) → bit_and x 31 ≡ x % 32
bit_and-31 x = omega (arith, bit_and-halves x 31, bit_and-15 (x / 2))

bit_and-63 : (x : ℕ) → bit_and x 63 ≡ x % 64
bit_and-63 x = omega (arith, bit_and-halves x 63, bit_and-31 (x / 2))

pub bit_and-127 : (x : ℕ) → bit_and x 127 ≡ x % 128
bit_and-127 x = omega (arith, bit_and-halves x 127, bit_and-63 (x / 2))

-- A single bit 2 ^ s of a number without a higher one.
half_double : (a b : ℕ) → a ≡ b * 2 → a / 2 ≡ b
half_double a b e = omega arith

bit_and-even : (x m n : ℕ) → m ≡ n * 2 → bit_and x m ≡ bit_and (x / 2) n * 2
bit_and-even x m n e = rw (bit_and-halves x m, half_double m n e) (even_digit (m % 2) (omega arith))
  where
    even_digit : (d : ℕ) → d ≡ 0 → bit_and (x / 2) n * 2 + min (x % 2) d ≡ bit_and (x / 2) n * 2
    even_digit zero h = omega arith
    even_digit (suc d) h = absurd (omega arith)

bit_and_low : (s x : ℕ) → x < 2 ^ s → bit_and x (2 ^ s) ≡ 0
bit_and_low zero x h = omega (arith, bit_and-1 x)
bit_and_low (suc s) x h = omega (
  arith,
  bit_and-even x (2 ^ suc s) (2 ^ s) (pow-suc 2 s),
  bit_and_low s (x / 2) (omega (arith, pow-suc 2 s)),
)

bit_and_high : (s x : ℕ) → 2 ^ s ≤ x → x < 2 * 2 ^ s → bit_and x (2 ^ s) ≡ 2 ^ s
bit_and_high zero x lo hi = omega (arith, bit_and-1 x)
bit_and_high (suc s) x lo hi = omega (
  arith,
  bit_and-even x (2 ^ suc s) (2 ^ s) (pow-suc 2 s),
  bit_and_high s (x / 2) (omega (arith, pow-suc 2 s)) (omega (arith, pow-suc 2 s)),
  pow-suc 2 s,
)

-- The top bit of a byte alone.
pub bit_and-128 : (x : ℕ) → x < 256 → bit_and x 128 ≡ x / 128 * 128
bit_and-128 x h = by_quotient (x / 128) refl
  where
    by_quotient : (q : ℕ) → x / 128 ≡ q → bit_and x 128 ≡ x / 128 * 128
    by_quotient zero e = omega (arith, bit_and_low 7 x (omega arith))
    by_quotient (suc q) e = omega (arith, bit_and_high 7 x (omega arith) h)

-- An or of a number below 2 ^ s and a multiple of 2 ^ s is their sum.
pub bit_or-disjoint : (s x g : ℕ) → x < 2 ^ s → bit_or x (g * 2 ^ s) ≡ x + g * 2 ^ s
bit_or-disjoint zero x g h = let e : x ≡ 0 = omega arith in rw e (or_of_zero (g * 1))
  where
    or_of_zero : (y : ℕ) → bit_or 0 y ≡ 0 + y
    or_of_zero y = omega (arith, bit_or-bitwise 0 y)
bit_or-disjoint (suc s) x g h = omega (
  arith,
  bit_or-halves x (g * 2 ^ suc s),
  ap (λ (t : ℕ). g * t) (pow-suc 2 s),
  pow-suc 2 s,
  ap (λ (t : ℕ). bit_or (x / 2) t)
      (half_of (g * 2 ^ suc s) (g * 2 ^ s) (omega (arith, ap (λ (t : ℕ). g * t) (pow-suc 2 s)))),
  bit_or-disjoint s (x / 2) g (omega (arith, pow-suc 2 s)),
)
  where
    half_of : (a b : ℕ) → a ≡ b * 2 → a / 2 ≡ b
    half_of a b e = omega arith

pub bit_or-128 : (x : ℕ) → x < 128 → bit_or x 128 ≡ x + 128
bit_or-128 x h = bit_or-disjoint 7 x 1 h
