-- ===== src/Logical/Decimals.antt =====
-- Decimals of logical type `decimal`: the bytes that are written carry the number.
use fastavro.Prelude.{
  ℕ, zero, suc, ◌+◌, ◌-◌, ◌*◌, ◌/◌, ◌^◌, ◌≤◌, ◌<◌, ◌≡◌, refl, ap, Bool, true, false, not, ◌&&◌,
  List, length, arith, Bool-cases, inl, inr, ltb-eq_true, ltb-eq_false, ◌==◌,
}
use fastavro.Python.Errors.{ok, bind}
use fastavro.Python.Ints.{ℤ, pos, ◌+ℤ◌, ◌-ℤ◌, pos_part, neg_part}
use fastavro.Python.Ints.Laws.{neg_pos}
use fastavro.Python.Text.{Bytes}
use fastavro.Python.Floats.{bit_length, bit_length_upto}
use fastavro.Datum.{object, decimal}
use fastavro.Schema.{Schema}
use fastavro.Logical.Digits.{
  big_bytes, digits_value, decimal_digits, to_signed_bytes, from_signed_bytes,
}
use fastavro.Logical.Digits.BigEndian.{from_signed_bytes-to_signed_bytes}
use fastavro.Logical.Writers.{scale_of, precision_of, signed, decimal_bytes, prepare_bytes_decimal}
use fastavro.Logical.Readers.{create_decimal, is_negative, read_decimal}
use native.Mathlib.Nat.{pow-suc, pow-le-pow_right}

bound_upto : (k n : ℕ) → n ≤ k → n < 2 ^ bit_length_upto k n
unfolding bit_length_upto
bound_upto zero n h = omega arith
bound_upto (suc k) n h = elim (Bool-cases (n == 0)) [
  | inl z ↦ rw z (ground arith)
  | inr z ↦
      rw z
        (omega (arith, bound_upto k (n / 2) (ground arith), pow-suc 2 (bit_length_upto k (n / 2))))
]

-- A number has no bit beyond its bit length.
pub lt-bit_length : (n : ℕ) → n < 2 ^ bit_length n
unfolding bit_length
lt-bit_length n = bound_upto n n (omega arith)

power_four : (m : ℕ) → 2 ^ suc (suc (suc (suc m))) ≡ 2 ^ m * 16
power_four m =
    omega (
      arith,
      pow-suc 2 m,
      pow-suc 2 (suc m),
      pow-suc 2 (suc (suc m)),
      pow-suc 2 (suc (suc (suc m))),
    )

pub power_256 : (k : ℕ) → 256 ^ k ≡ 2 ^ (k * 8)
power_256 zero = refl
power_256 (suc k) =
    let e : suc k * 8 ≡ suc (suc (suc (suc (suc (suc (suc (suc (k * 8)))))))) = omega arith in
    rw e (
      omega (
        arith,
        pow-suc 256 k,
        power_256 k,
        power_four (k * 8),
        power_four (suc (suc (suc (suc (k * 8))))),
      ))

-- So many bytes hold the number and a sign.
pub fits_bytes : (n size : ℕ) → bit_length n + 1 ≤ size * 8 → 2 * n < 256 ^ size
fits_bytes n size h = omega (
  arith,
  lt-bit_length n,
  pow-suc 2 (bit_length n),
  power_256 size,
  pow-le-pow_right {n = 2} (omega arith) {i = suc (bit_length n)} {j = size * 8} (omega (arith, h)),
)

to_signed_bytes-fits :
    (size n : ℕ) (sign : Bool)
    → 2 * n < 256 ^ size
    → (b : Bytes) × (to_signed_bytes size (signed sign n) ≡ ok b)
      × (from_signed_bytes b ≡ signed sign n)
to_signed_bytes-fits size n sign h =
    let (b, e) = written sign n h in
    (b, e, from_signed_bytes-to_signed_bytes size (signed sign n) b e)
  where
    written :
        (sign : Bool) (n : ℕ)
        → 2 * n < 256 ^ size
        → (b : Bytes) × (to_signed_bytes size (signed sign n) ≡ ok b)
    written false n h =
        (big_bytes size n, unfold to_signed_bytes in rw (ltb-eq_true (2 * n) (256 ^ size) h) refl)
    written true zero h =
        (big_bytes size 0, unfold to_signed_bytes ◌-ℤ◌ in rw (ltb-eq_true 0 (256 ^ size) h) refl)
    written true (suc n) h = (
      big_bytes size (256 ^ size - suc n),
      rw (neg_pos n) (
          unfold to_signed_bytes in
          rw (ltb-eq_true (suc (2 * n)) (256 ^ size) (omega (arith, h))) refl),
    )

-- A finite decimal within the schema's precision and scale is written without an exception, and the
-- bytes are, in two's complement, its digits times the power of ten that the scale asks for.
pub decimal_bytes_lem :
    (scale precision k : ℕ) (sign : Bool) (digits : List ℕ) (exp : ℤ)
    → length digits ≤ precision
    → exp +ℤ pos scale ≡ pos k
    → (b : Bytes) × (decimal_bytes scale precision sign digits exp ≡ ok b)
      × (from_signed_bytes b ≡ signed sign (10 ^ k * digits_value 0 digits))
unfolding decimal_bytes
decimal_bytes_lem scale precision k sign digits exp hp hk =
    let u : ℕ = 10 ^ k * digits_value 0 digits in
    let (b, e, v) =
      to_signed_bytes-fits ((bit_length u + 8) / 8) u sign
        (fits_bytes u ((bit_length u + 8) / 8) (omega arith)) in
    (
      b,
      rw (hk, ltb-eq_false precision (length digits) hp, ltb-eq_false (k + 0) 0 (omega arith)) e,
      v,
    )

create_decimal-exact :
    (precision n : ℕ)
    → length (decimal_digits n) ≤ precision
    → create_decimal precision n ≡ (decimal_digits n, 0)
unfolding create_decimal
create_decimal-exact precision n h =
    let none_more : (length (decimal_digits n) - precision == 0) ≡ true = ground arith in
    rw none_more refl

signed_size : (sign : Bool) (n : ℕ) → pos_part (signed sign n) + neg_part (signed sign n) ≡ n
signed_size false n = omega arith
signed_size true zero = unfold ◌-ℤ◌ in omega arith
signed_size true (suc n) = rw (neg_pos n) (omega arith)

signed_sign : (sign : Bool) (n : ℕ) → is_negative (signed sign n) ≡ (sign && not (n == 0))
signed_sign false n = refl
signed_sign true zero = unfold ◌-ℤ◌ in refl
signed_sign true (suc n) = rw (neg_pos n) (ground arith)

-- A decimal within the precision and the scale, that has no more digits than the precision at that
-- scale, is read back from its bytes with the same value, at the exponent of the scale; a negative
-- zero comes back without its sign.
pub read_decimal-prepare_bytes_decimal :
    (s : Schema) (precision k : ℕ) (sign : Bool) (digits : List ℕ) (exp : ℤ)
    → precision_of s ≡ ok precision
    → 0 < precision
    → length digits ≤ precision
    → exp +ℤ pos (scale_of s) ≡ pos k
    → length (decimal_digits (10 ^ k * digits_value 0 digits)) ≤ precision
    → bind (prepare_bytes_decimal (object (decimal sign digits exp)) s) (λ d. read_decimal d s)
      ≡ ok (
          object (
            decimal
              (sign && not (10 ^ k * digits_value 0 digits == 0))
              (decimal_digits (10 ^ k * digits_value 0 digits))
              (pos 0 -ℤ pos (scale_of s))))
unfolding prepare_bytes_decimal read_decimal
read_decimal-prepare_bytes_decimal s precision k sign digits exp hp h0 hd hk fits =
    let u : ℕ = 10 ^ k * digits_value 0 digits in
    let (b, e, v) = decimal_bytes_lem (scale_of s) precision k sign digits exp hd hk in
    rw (hp, e)
      (rw (hp, v, signed_size sign u, create_decimal-exact precision u fits, nonzero)
        (ap (λ (t : Bool). ok (object (decimal t (decimal_digits u) (pos 0 -ℤ pos (scale_of s)))))
          (signed_sign sign u)))
  where
    nonzero : (precision == 0) ≡ false
    nonzero = ground arith
