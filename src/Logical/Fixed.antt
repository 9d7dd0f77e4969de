-- ===== src/Logical/Fixed.antt =====
-- Decimals in a fixed number of bytes: the loop over the mask, and the number that is written.
use fastavro.Prelude.{
  ℕ, zero, suc, ◌+◌, ◌-◌, ◌*◌, ◌/◌, ◌%◌, ◌^◌, ◌≤◌, ◌<◌, bit_or, bit_xor, ◌≡◌, refl, ap, sym, ◌∙◌,
  Bool, true, false, ◌&&◌, List, [], ◌∷◌, ◌++◌, replicate, length, arith, ltb-eq_false, ◌==◌,
}
use fastavro.Prelude.Bits.{bit_xor-one, bit_or-disjoint, bit_or-zero}
use fastavro.Prelude.Bits.Shifts.{bit_xor-shift, bit_or_comm, bit_or-parts}
use fastavro.Python.Errors.{ok}
use fastavro.Python.Ints.{ℤ, pos, negsuc, neg, ◌+ℤ◌, ◌-ℤ◌, ltb_ℤ}
use fastavro.Python.Ints.Laws.{neg_pos}
use fastavro.Python.Text.{Bytes}
use fastavro.Python.Floats.{bit_length}
use fastavro.Logical.Digits.{big_bytes, digits_value, from_signed_bytes}
use fastavro.Logical.Digits.BigEndian.{
  length-big_bytes, from_signed_bytes-pos, from_signed_bytes-neg,
}
use fastavro.Logical.Decimals.{lt-bit_length, power_256, fits_bytes}
use fastavro.Logical.Writers.{signed, clear_bits, bytes_for, fixed_bytes, fixed_decimal_bytes}
use native.Mathlib.Nat.{pow-suc, pow-le-pow_right, div-eq_of_lt}

-- The loop clears the lowest bits one by one.
clear_bits_lem :
    (n m i : ℕ) → clear_bits n ((2 ^ (n + m) - 1) * 2 ^ i) (2 ^ i) ≡ (2 ^ m - 1) * 2 ^ (n + i)
unfolding clear_bits
clear_bits_lem zero m i =
    let p : zero + m ≡ m = omega arith in let q : zero + i ≡ i = omega arith in rw (p, q) refl
clear_bits_lem (suc n) m i =
    let p : suc n + m ≡ suc (n + m) = omega arith in
    let q : n + suc i ≡ suc n + i = omega arith in
    rw (step, ap (λ (t : ℕ). t) (sym (pow-suc 2 i)), sym q) (clear_bits_lem n m (suc i))
  where
    power : 1 ≤ 2 ^ (n + m)
    power = pow-le-pow_right {n = 2} (omega arith) {i = 0} {j = n + m} (omega arith)

    odd : 2 ^ (suc n + m) - 1 ≡ 2 * (2 ^ (n + m) - 1) + 1
    odd =
        let p : suc n + m ≡ suc (n + m) = omega arith in
        rw p (omega (arith, power, pow-suc 2 (n + m)))

    step : bit_xor ((2 ^ (suc n + m) - 1) * 2 ^ i) (2 ^ i) ≡ (2 ^ (n + m) - 1) * 2 ^ suc i
    step =
        ap (λ (t : ℕ). bit_xor (t * 2 ^ i) (2 ^ i)) odd
        ∙ ap (λ (t : ℕ). bit_xor ((2 * (2 ^ (n + m) - 1) + 1) * 2 ^ i) t) (omega arith)
        ∙ bit_xor-shift i (2 * (2 ^ (n + m) - 1) + 1) 1
        ∙ ap (λ (t : ℕ). t * 2 ^ i) (bit_xor-one (2 ^ (n + m) - 1) 1 (omega arith))
        ∙ omega (arith, ap (λ (t : ℕ). (2 ^ (n + m) - 1) * t) (pow-suc 2 i))

pow_add : (b m : ℕ) → 2 ^ (b + m) ≡ 2 ^ m * 2 ^ b
pow_add b zero = let p : b + zero ≡ b = omega arith in rw p (omega arith)
pow_add b (suc m) =
    let p : b + suc m ≡ suc (b + m) = omega arith in
    rw p (omega (arith, pow-suc 2 (b + m), pow_add b m, ap (λ (t : ℕ). t * 2 ^ b) (pow-suc 2 m)))

-- `mask | unscaled_datum` for a positive number: its two's complement.
mask_or :
    (b m x : ℕ) → x < 2 ^ b → bit_or (clear_bits b (2 ^ (b + m) - 1) 1) x + 2 ^ b ≡ x + 2 ^ (b + m)
mask_or b m x h =
    rw (mask, bit_or_comm ((2 ^ m - 1) * 2 ^ b) x, bit_or-disjoint b x (2 ^ m - 1) h)
      (omega (arith, pow_add b m, distribute (2 ^ m) power))
  where
    power : 1 ≤ 2 ^ m
    power = pow-le-pow_right {n = 2} (omega arith) {i = 0} {j = m} (omega arith)

    distribute : (t : ℕ) → 1 ≤ t → (t - 1) * 2 ^ b + 2 ^ b ≡ t * 2 ^ b
    distribute zero h = absurd (omega arith)
    distribute (suc t) h = let p : suc t - 1 ≡ t = omega arith in rw p (omega arith)

    mask : clear_bits b (2 ^ (b + m) - 1) 1 ≡ (2 ^ m - 1) * 2 ^ b
    mask =
        let p : b + 0 ≡ b = omega arith in
        ap (λ (t : ℕ). clear_bits b t 1) (omega arith)
        ∙ clear_bits_lem b m 0
        ∙ ap (λ (t : ℕ). (2 ^ m - 1) * 2 ^ t) p

-- Zeros in front are what a greater size gives.
leading_zeros : (z k n : ℕ) → n < 256 ^ k → replicate z 0 ++ big_bytes k n ≡ big_bytes (z + k) n
unfolding big_bytes
leading_zeros zero k n h = let p : zero + k ≡ k = omega arith in rw p refl
leading_zeros (suc z) k n h =
    let p : suc z + k ≡ suc (z + k) = omega arith in
    rw (p, big_bytes, no_digit) (ap (λ (t : Bytes). 0 ∷ t) (leading_zeros z k n h))
  where
    no_digit : n / 256 ^ (z + k) % 256 ≡ 0
    no_digit =
        ap (λ (t : ℕ). t % 256)
          (div-eq_of_lt (
            omega (
              arith,
              h,
              pow-le-pow_right {n = 256} (omega arith) {i = k} {j = z + k} (omega arith),
            )))

bytes_for-room : (b : ℕ) → b ≤ bytes_for b * 8
bytes_for-room b = ground arith

bytes_for-size : (b size : ℕ) → 1 ≤ b → b ≤ size * 8 → (size * 8 - b) / 8 + bytes_for b ≡ size
bytes_for-size b size lo h = ground arith

-- Below the highest bit that the size has room for, the bytes are the number's two's complement.
fixed_bytes_pos :
    (size n : ℕ)
    → bit_length n + 1 ≤ size * 8
    → (length (fixed_bytes size false n) ≡ size)
      × (from_signed_bytes (fixed_bytes size false n) ≡ pos n)
unfolding fixed_bytes
fixed_bytes_pos size n h =
    let b = bit_length n + 1 in
    let below : 2 * n < 256 ^ bytes_for b = fits_bytes n (bytes_for b) (bytes_for-room b) in
    rw
      (
        leading_zeros ((size * 8 - b) / 8) (bytes_for b) n (omega (arith, below)),
        bytes_for-size b size (omega arith) h,
      )
      (length-big_bytes size n, from_signed_bytes-pos size n (fits_bytes n size h))

fixed_bytes_neg :
    (size n : ℕ)
    → bit_length (suc n) + 1 ≤ size * 8
    → (length (fixed_bytes size true (suc n)) ≡ size)
      × (from_signed_bytes (fixed_bytes size true (suc n)) ≡ negsuc n)
unfolding fixed_bytes
fixed_bytes_neg size n h =
    let b = bit_length (suc n) + 1 in
    let m = size * 8 - b in
    let p : size * 8 ≡ b + m = omega (arith, h) in
    let top : suc n < 2 ^ b =
      (let q : b ≡ suc (bit_length (suc n)) = omega arith in
        rw q (omega (arith, lt-bit_length (suc n), pow-suc 2 (bit_length (suc n))))) in
    rw p (
      length-big_bytes size _,
      from_signed_bytes-neg size _ n
          (omega (
            arith,
            mask_or b m (2 ^ b - suc n) (omega (arith, top)),
            power_256 size,
            ap (λ (t : ℕ). 2 ^ t) p,
            top,
          ))
          (omega (arith, fits_bytes (suc n) size h)),
    )

-- For a decimal of n, other than zero or with a positive sign.
fixed_bytes_lem :
    (size n : ℕ) (sign : Bool)
    → bit_length n + 1 ≤ size * 8
    → (sign && (n == 0)) ≡ false
    → (length (fixed_bytes size sign n) ≡ size)
      × (from_signed_bytes (fixed_bytes size sign n) ≡ signed sign n)
fixed_bytes_lem size n false h k = fixed_bytes_pos size n h
fixed_bytes_lem size zero true h k = cc
fixed_bytes_lem size (suc n) true h k = rw (neg_pos n) (fixed_bytes_neg size n h)

digits_value-zeros :
    (k v : ℕ) (digits : List ℕ)
    → digits_value v (digits ++ replicate k 0) ≡ 10 ^ k * digits_value v digits
unfolding digits_value
digits_value-zeros zero v [] = omega arith
digits_value-zeros (suc k) v [] =
    digits_value-zeros k (v * 10 + 0) [] ∙ omega (arith, ap (λ (t : ℕ). t * v) (pow-suc 10 k))
digits_value-zeros k v (d ∷ digits) = digits_value-zeros k (v * 10 + d) digits

scale_fits :
    (scale k : ℕ) (exp : ℤ) → exp +ℤ pos scale ≡ pos k → ltb_ℤ (pos scale) (neg exp) ≡ false
unfolding ◌+ℤ◌ ◌-ℤ◌
scale_fits scale k (pos zero) e = ground arith
scale_fits scale k (pos (suc n)) e = rw (neg_pos n) (ground arith)
scale_fits scale k (negsuc n) e = ground arith

-- A decimal within the precision and the scale, whose number has room in the size with its sign, is
-- written without an exception in just `size` bytes, which are in two's complement its digits times the
-- power of ten that the scale asks for. It is not a negative zero.
pub fixed_decimal_bytes_lem :
    (scale size precision k : ℕ) (sign : Bool) (digits : List ℕ) (exp : ℤ)
    → length digits ≤ precision
    → exp +ℤ pos scale ≡ pos k
    → bit_length (10 ^ k * digits_value 0 digits) + 1 ≤ size * 8
    → (sign && (10 ^ k * digits_value 0 digits == 0)) ≡ false
    → (b : Bytes) × (fixed_decimal_bytes scale size precision sign digits exp ≡ ok b)
      × (length b ≡ size)
      × (from_signed_bytes b ≡ signed sign (10 ^ k * digits_value 0 digits))
unfolding fixed_decimal_bytes
fixed_decimal_bytes_lem scale size precision k sign digits exp hp hk room nz =
    let u : ℕ = 10 ^ k * digits_value 0 digits in
    (
      fixed_bytes size sign u,
      rw
          (
            hk,
            ltb-eq_false precision (length digits) hp,
            scale_fits scale k exp hk,
            digits_value-zeros k 0 digits,
          )
          refl,
      (fixed_bytes_lem size u sign room nz).0,
      (fixed_bytes_lem size u sign room nz).1,
    )

or_two : (h : ℕ) → bit_or (4 * h + 2) 2 ≡ 4 * h + 2
or_two h =
    bit_or-parts (4 * h + 2) 2 (2 * h + 1) 1 0 0 (omega arith) (omega arith) (omega arith)
      (omega arith)
    ∙ omega (
      arith,
      bit_or-parts (2 * h + 1) 1 h 0 1 1 (omega arith) (omega arith) (omega arith) (omega arith),
      bit_or-zero h,
    )

-- A negative zero is written, in any size, as -2.
pub fixed_bytes_negative_zero :
    (size : ℕ)
    → 1 ≤ size
    → (length (fixed_bytes size true 0) ≡ size)
      × (from_signed_bytes (fixed_bytes size true 0) ≡ negsuc 1)
unfolding fixed_bytes bit_length clear_bits
fixed_bytes_negative_zero size h =
    let m = size * 8 - 2 in
    let p : size * 8 ≡ suc (suc m) = omega (arith, h) in
    let low : 1 ≤ 2 ^ m = pow-le-pow_right {n = 2} (omega arith) {i = 0} {j = m} (omega arith) in
    let span : 256 ^ size ≡ 4 * 2 ^ m =
      power_256 size ∙ ap (λ (t : ℕ). 2 ^ t) p ∙ omega (arith, pow-suc 2 (suc m), pow-suc 2 m) in
    let mask : clear_bits 1 (2 ^ (size * 8) - 1) 1 ≡ 4 * (2 ^ m - 1) + 2 =
      ap (λ (t : ℕ). bit_xor t 1) (omega (arith, span, power_256 size, low))
      ∙ bit_xor-one (2 * (2 ^ m - 1) + 1) 1 (omega arith)
      ∙ omega arith in
    (
      length-big_bytes size _,
      from_signed_bytes-neg size _ 1
          (ap (λ (t : ℕ). bit_or t 2 + 2) mask ∙ omega (arith, or_two (2 ^ m - 1), span, low))
          (omega (arith, span, low)),
    )
