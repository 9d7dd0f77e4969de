-- ===== src/Logical/Digits/BigEndian.antt =====
-- Big-endian bytes in two's complement: the number comes back.
use fastavro.Prelude.{
  ℕ, zero, suc, ◌+◌, ◌-◌, ◌*◌, ◌/◌, ◌%◌, ◌^◌, ◌<◌, ◌≡◌, refl, ap, sym, ◌∙◌, length, arith, ltb,
  Bool-cases, inl, inr, ltb-eq_true, ltb-eq_false,
}
use fastavro.Python.Errors.{ok}
use fastavro.Python.Ints.{ℤ, pos, negsuc, neg}
use fastavro.Python.Ints.Laws.{neg_pos}
use fastavro.Python.Text.{Bytes}
use fastavro.Logical.Digits.{big_bytes, big_value, to_signed_bytes, from_signed_bytes}
use native.Mathlib.Nat.{
  pow-suc, mod-lt, div-add-mod, div-eq_of_lt, mul-add-div_right, div-lt_iff_lt-mul,
}

pub length-big_bytes : (size n : ℕ) → length (big_bytes size n) ≡ size
unfolding big_bytes
length-big_bytes zero n = refl
length-big_bytes (suc k) n = ap suc (length-big_bytes k n)

power_pos : (k : ℕ) → 0 < 256 ^ k
power_pos zero = omega arith
power_pos (suc k) = omega (arith, power_pos k, pow-suc 256 k)

-- The bytes of q * 256 ^ size + r, appended to the value so far, bring in r.
pub big_value-big_bytes :
    (size acc n q r : ℕ)
    → n ≡ q * 256 ^ size + r
    → r < 256 ^ size
    → big_value acc (big_bytes size n) ≡ acc * 256 ^ size + r
unfolding big_bytes big_value
big_value-big_bytes zero acc n q r e h = omega arith
big_value-big_bytes (suc k) acc n q r e h =
    big_value-big_bytes k (acc * 256 + n / 256 ^ k % 256) n (q * 256 + r / 256 ^ k) (r % 256 ^ k)
      whole (mod-lt r (power_pos k))
    ∙ omega (
      arith,
      split_r,
      mask,
      pow-suc 256 k,
      ap (λ (t : ℕ). acc * t) (pow-suc 256 k),
      ap (λ (t : ℕ). t * 256 ^ k) mask,
    )
  where
    split_r : r ≡ r / 256 ^ k * 256 ^ k + r % 256 ^ k
    split_r = omega (arith, div-add-mod r (256 ^ k))

    whole : n ≡ (q * 256 + r / 256 ^ k) * 256 ^ k + r % 256 ^ k
    whole = omega (arith, ap (λ (t : ℕ). q * t) (pow-suc 256 k))

    digit : n / 256 ^ k ≡ q * 256 + r / 256 ^ k
    digit =
        ap (λ (t : ℕ). t / 256 ^ k) whole
        ∙ mul-add-div_right (power_pos k) (q * 256 + r / 256 ^ k) (r % 256 ^ k)
        ∙ ap (λ (t : ℕ). q * 256 + r / 256 ^ k + t) (div-eq_of_lt (mod-lt r (power_pos k)))
        ∙ omega arith

    small : r / 256 ^ k < 256
    small = (div-lt_iff_lt-mul (power_pos k)).1 (omega (arith, h, pow-suc 256 k))

    mask : n / 256 ^ k % 256 ≡ r / 256 ^ k
    mask = omega (arith, digit, small)

big_value-whole : (size n : ℕ) → n < 256 ^ size → big_value 0 (big_bytes size n) ≡ n
big_value-whole size n h = big_value-big_bytes size 0 n 0 n (omega arith) h ∙ omega arith

pub from_signed_bytes-pos :
    (size n : ℕ) → 2 * n < 256 ^ size → from_signed_bytes (big_bytes size n) ≡ pos n
unfolding from_signed_bytes
from_signed_bytes-pos size n h =
    rw
      (
        big_value-whole size n (omega (arith, h)),
        length-big_bytes size n,
        ltb-eq_true (2 * n) (256 ^ size) h,
      )
      refl

pub from_signed_bytes-neg :
    (size m n : ℕ)
    → m + suc n ≡ 256 ^ size
    → suc (2 * n) < 256 ^ size
    → from_signed_bytes (big_bytes size m) ≡ negsuc n
unfolding from_signed_bytes
from_signed_bytes-neg size m n e h =
    rw
      (
        big_value-whole size m (omega (arith, e)),
        length-big_bytes size m,
        ltb-eq_false (2 * m) (256 ^ size) (omega (arith, e, h)),
      )
      (ap (λ (k : ℕ). neg (pos k)) rest ∙ neg_pos n)
  where
    rest : 256 ^ size - m ≡ suc n
    rest = omega (arith, e)

-- What was written signed is read signed.
pub from_signed_bytes-to_signed_bytes :
    (size : ℕ) (n : ℤ) (b : Bytes) → to_signed_bytes size n ≡ ok b → from_signed_bytes b ≡ n
unfolding to_signed_bytes
from_signed_bytes-to_signed_bytes size (pos n) b e = elim (Bool-cases (ltb (2 * n) (256 ^ size))) [
  | inl h ↦
      let same : big_bytes size n ≡ b = cc (rw h at e) in
      ap from_signed_bytes (sym same) ∙ from_signed_bytes-pos size n (ground arith)
  | inr h ↦ cc (rw h at e)
]
from_signed_bytes-to_signed_bytes size (negsuc n) b e =
    elim (Bool-cases (ltb (suc (2 * n)) (256 ^ size))) [
      | inl h ↦
          let same : big_bytes size (256 ^ size - suc n) ≡ b = cc (rw h at e) in
          ap from_signed_bytes (sym same)
          ∙ from_signed_bytes-neg size (256 ^ size - suc n) n (ground arith) (ground arith)
      | inr h ↦ cc (rw h at e)
    ]
