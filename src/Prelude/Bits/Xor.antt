-- ===== src/Prelude/Bits/Xor.antt =====
-- The laws of the exclusive or, by halving, and its action on the two parts of a number.
use Prim.Native.Nat.{
  ℕ, zero, suc, ◌+◌, ◌*◌, ◌/◌, ◌%◌, ◌^◌, ◌≤◌, ◌<◌, bit_xor, bit_and, differ, bit_xor-bitwise,
}
use mathlib.Core.Path.{◌≡◌, refl, sym, ap, ◌∙◌}
use native.Mathlib.Omega.{arith}
use native.Mathlib.Nat.{pow-suc}
use fastavro.Prelude.Bits.{half_double, bit_xor-halves, bit_xor-zero, bit_and-halves, bit_and-127}

differ_small : (a b : ℕ) → a < 2 → b < 2 → differ a b < 2
differ_small zero b h k = k
differ_small (suc zero) zero h k = h
differ_small (suc zero) (suc zero) h k = omega arith
differ_small (suc a) (suc (suc b)) h k = absurd (omega arith)
differ_small (suc (suc a)) b h k = absurd (omega arith)

pub bit_xor-half : (x y : ℕ) → bit_xor x y / 2 ≡ bit_xor (x / 2) (y / 2)
bit_xor-half x y =
    omega (arith, bit_xor-halves x y, differ_small (x % 2) (y % 2) (omega arith) (omega arith))

pub bit_xor-last : (x y : ℕ) → bit_xor x y % 2 ≡ differ (x % 2) (y % 2)
bit_xor-last x y =
    omega (arith, bit_xor-halves x y, differ_small (x % 2) (y % 2) (omega arith) (omega arith))

pub zero-bit_xor : (y : ℕ) → bit_xor 0 y ≡ y
zero-bit_xor y = bit_xor-bitwise 0 y

differ_comm : (a b : ℕ) → differ a b ≡ differ b a
differ_comm zero zero = refl
differ_comm zero (suc b) = refl
differ_comm (suc a) zero = refl
differ_comm (suc a) (suc b) = differ_comm a b

comm_upto : (k x y : ℕ) → x ≤ k → bit_xor x y ≡ bit_xor y x
comm_upto k zero y h = zero-bit_xor y ∙ sym (bit_xor-zero y)
comm_upto zero (suc x) y h = absurd (omega arith)
comm_upto (suc k) (suc x) y h = omega (
  arith,
  bit_xor-halves (suc x) y,
  bit_xor-halves y (suc x),
  comm_upto k (suc x / 2) (y / 2) (omega arith),
  differ_comm (suc x % 2) (y % 2),
)

pub bit_xor_comm : (x y : ℕ) → bit_xor x y ≡ bit_xor y x
bit_xor_comm x y = comm_upto x x y (omega arith)

differ_assoc : (a b c : ℕ) → a < 2 → b < 2 → c < 2 → differ (differ a b) c ≡ differ a (differ b c)
differ_assoc zero b c h k l = refl
differ_assoc (suc zero) zero c h k l = refl
differ_assoc (suc zero) (suc zero) zero h k l = refl
differ_assoc (suc zero) (suc zero) (suc zero) h k l = refl
differ_assoc (suc zero) (suc zero) (suc (suc c)) h k l = absurd (omega arith)
differ_assoc (suc zero) (suc (suc b)) c h k l = absurd (omega arith)
differ_assoc (suc (suc a)) b c h k l = absurd (omega arith)

differ_self : (a : ℕ) → differ a a ≡ 0
differ_self zero = refl
differ_self (suc a) = differ_self a

self_upto : (k x : ℕ) → x ≤ k → bit_xor x x ≡ 0
self_upto k zero h = zero-bit_xor 0
self_upto zero (suc x) h = absurd (omega arith)
self_upto (suc k) (suc x) h = omega (
  arith,
  bit_xor-halves (suc x) (suc x),
  self_upto k (suc x / 2) (omega arith),
  differ_self (suc x % 2),
)

pub bit_xor_self : (x : ℕ) → bit_xor x x ≡ 0
bit_xor_self x = self_upto x x (omega arith)

assoc_upto : (k x y z : ℕ) → x ≤ k → bit_xor (bit_xor x y) z ≡ bit_xor x (bit_xor y z)
assoc_upto k zero y z h = rw (zero-bit_xor y, zero-bit_xor (bit_xor y z)) refl
assoc_upto zero (suc x) y z h = absurd (omega arith)
assoc_upto (suc k) (suc x) y z h =
    bit_xor-halves (bit_xor (suc x) y) z
    ∙ rw
        (
          bit_xor-half (suc x) y,
          bit_xor-last (suc x) y,
          assoc_upto k (suc x / 2) (y / 2) (z / 2) (omega arith),
          differ_assoc (suc x % 2) (y % 2) (z % 2) (omega arith) (omega arith) (omega arith),
        )
        (sym (bit_xor-halves (suc x) (bit_xor y z) ∙ rw (bit_xor-half y z, bit_xor-last y z) refl))

pub bit_xor_assoc : (x y z : ℕ) → bit_xor (bit_xor x y) z ≡ bit_xor x (bit_xor y z)
bit_xor_assoc x y z = assoc_upto x x y z (omega arith)

-- Two pairs, crosswise.
pub bit_xor_cross :
    (a b c d : ℕ) → bit_xor (bit_xor a b) (bit_xor c d) ≡ bit_xor (bit_xor a c) (bit_xor b d)
bit_xor_cross a b c d =
    bit_xor_assoc a b (bit_xor c d)
    ∙ ap (bit_xor a)
        (sym (bit_xor_assoc b c d) ∙ ap (λ t. bit_xor t d) (bit_xor_comm b c) ∙ bit_xor_assoc c b d)
    ∙ sym (bit_xor_assoc a c (bit_xor b d))

-- A number above a shift and one below it do not meet.
disjoint_step : (m x : ℕ) → bit_xor m (x / 2) ≡ m + x / 2 → bit_xor (m * 2) x ≡ m * 2 + x
disjoint_step m x h =
    bit_xor-halves (m * 2) x
    ∙ rw (half_double (m * 2) m refl, even (m * 2) (omega arith), h) (omega arith)
  where
    even : (d : ℕ) → d ≡ m * 2 → d % 2 ≡ 0
    even d e = omega arith

pub bit_xor-disjoint : (s h x : ℕ) → x < 2 ^ s → bit_xor (h * 2 ^ s) x ≡ h * 2 ^ s + x
bit_xor-disjoint zero h x low =
    let none : x ≡ 0 = omega (arith, low) in rw none (bit_xor-zero (h * 1) ∙ omega arith)
bit_xor-disjoint (suc s) h x low =
    rw (pow-suc 2 s, shift)
      (disjoint_step (h * 2 ^ s) x (bit_xor-disjoint s h (x / 2) (omega (arith, low, pow-suc 2 s))))
  where
    shift : h * (2 ^ s * 2) ≡ h * 2 ^ s * 2
    shift = omega arith

-- A shift by halves.
halve : ℕ → ℕ → ℕ
halve zero x = x
halve (suc k) x = halve k (x / 2)

halve-bit_xor : (k x y : ℕ) → halve k (bit_xor x y) ≡ bit_xor (halve k x) (halve k y)
unfolding halve
halve-bit_xor zero x y = refl
halve-bit_xor (suc k) x y = ap (halve k) (bit_xor-half x y) ∙ halve-bit_xor k (x / 2) (y / 2)

halve_8 : (x : ℕ) → halve 8 x ≡ x / 256
unfolding halve
halve_8 x = omega arith

-- The bytes above the lowest, and the lowest.
pub bit_xor-shift_8 : (x y : ℕ) → y < 256 → bit_xor x y / 256 ≡ x / 256
bit_xor-shift_8 x y low =
    let none : y / 256 ≡ 0 = omega (arith, low) in
    sym (halve_8 (bit_xor x y))
    ∙ halve-bit_xor 8 x y
    ∙ rw (halve_8 x, halve_8 y, none) (bit_xor-zero (x / 256))

pub bit_and-255 : (x : ℕ) → bit_and x 255 ≡ x % 256
bit_and-255 x = omega (arith, bit_and-halves x 255, bit_and-127 (x / 2))
