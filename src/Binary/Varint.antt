-- ===== src/Binary/Varint.antt =====
-- Integers in the binary format: `write_int` against `read_long`.
use fastavro.Prelude.{
  ℕ, zero, suc, ◌+◌, ◌-◌, ◌*◌, ◌/◌, ◌%◌, ◌^◌, ◌≤◌, ◌<◌, Bool, true, false, [], ◌∷◌, ◌++◌, bit_and,
  bit_or, bit_xor, ◌≡◌, refl, sym, ap, ◌∙◌, arith,
}
use fastavro.Prelude.Bits.{
  bit_and-1, bit_and-127, bit_and-128, bit_or-128, bit_or-disjoint, bit_xor-zero, bit_xor-one,
}
use fastavro.Python.Errors.{Result, ok, err, type_error, wrote, output}
use fastavro.Python.Ints.{ℤ, pos, negsuc, pos_part, neg_part, and_ℤ, invert, eq_ℤ, ◌-ℤ◌}
use fastavro.Python.Text.{Bytes}
use fastavro.Binary.Encoder.{write_groups, zigzag, write_int, write_long}
use fastavro.Binary.Decoder.{read_groups, unzigzag, read_long}
use native.Mathlib.Decide.{dec_lt}
use native.Mathlib.Nat.{div-add-mod}
use native.Mathlib.Numerals.{towards_suc}

-- The test of the writer's loop.
abbrev is_last : ℕ → Bool
is_last n = eq_ℤ (and_ℤ (pos n) (invert (pos 0x7f))) (pos 0)

is_last-eq : (n : ℕ) → (n < 128 → is_last n ≡ true) × (128 ≤ n → is_last n ≡ false)
is_last-eq n = (λ h. ground (arith, bit_and-127 n), λ h. ground (arith, bit_and-127 n))

-- The groups of seven bits, in plain arithmetic.
write_groups-last : (fuel n : ℕ) → n < 128 → write_groups fuel n ≡ n ∷ []
unfolding write_groups
write_groups-last zero n h = refl
write_groups-last (suc fuel) n h = rw ((is_last-eq n).0 h)

write_groups-more :
    (fuel n : ℕ)
    → 128 ≤ n
    → write_groups (suc fuel) n ≡ (n % 128 + 128) ∷ write_groups fuel (n / 128)
unfolding write_groups
write_groups-more fuel n h =
    rw ((is_last-eq n).1 h, bit_and-127 n) (rw (bit_or-128 (n % 128) (omega arith)))

-- The reader's loop, as it stands before a byte.
abbrev feed : ℕ → ℕ → Bytes → Result (ℕ × Bytes)
feed n shift [] = err type_error
feed n shift (b ∷ fo) = read_groups b (bit_or n (bit_and b 0x7f * 2 ^ shift)) (shift + 7) fo

read_groups-last : (b n shift : ℕ) (fo : Bytes) → b < 128 → read_groups b n shift fo ≡ ok (n, fo)
unfolding read_groups
read_groups-last b n shift [] h = ground (arith, bit_and-128 b)
read_groups-last b n shift (b' ∷ fo) h = ground (arith, bit_and-128 b)

read_groups-more :
    (b n shift : ℕ) (fo : Bytes) → 128 ≤ b → b < 256 → read_groups b n shift fo ≡ feed n shift fo
unfolding read_groups
read_groups-more b n shift [] lo hi = ground (arith, bit_and-128 b)
read_groups-more b n shift (b' ∷ fo) lo hi = ground (arith, bit_and-128 b)

pow_seven : (s : ℕ) → 2 ^ (s + 7) ≡ 128 * 2 ^ s
pow_seven s = simp towards_suc (omega arith)

regroup : (w s : ℕ) → w * 2 ^ s ≡ w % 128 * 2 ^ s + w / 128 * 2 ^ (s + 7)
regroup w s = omega (
  arith,
  ap (λ (t : ℕ). t * 2 ^ s) (div-add-mod w 128),
  ap (λ (t : ℕ). w / 128 * t) (pow_seven s),
)

group_fits : (g n s : ℕ) → g < 128 → n < 2 ^ s → n + g * 2 ^ s < 2 ^ (s + 7)
group_fits g n s hg hn = rw (pow_seven s) (grind arith)

group_of_byte : (g : ℕ) → g < 128 → (g + 128) % 128 ≡ g
group_of_byte g h = omega arith

feed_last :
    (fuel w n shift : ℕ) (rest : Bytes)
    → w < 128
    → n < 2 ^ shift
    → feed n shift (write_groups fuel w ++ rest) ≡ ok (n + w * 2 ^ shift, rest)
feed_last fuel w n shift rest hw hn = rw (write_groups-last fuel w hw) (
    rw (bit_and-127 w, below_128 w hw, bit_or-disjoint shift n w hn)
      (read_groups-last w (n + w * 2 ^ shift) (shift + 7) rest hw))
  where
    below_128 : (g : ℕ) → g < 128 → g % 128 ≡ g
    below_128 g h = omega arith

first_group : (g : ℕ) → bit_or 0 (g * 2 ^ 0) ≡ g
first_group g = bit_or-disjoint 0 0 g (omega arith) ∙ omega arith

-- `w` is what is still to be read, and it counts from bit `shift` on.
feed-write_groups :
    (fuel w n shift : ℕ) (rest : Bytes)
    → w ≤ fuel
    → n < 2 ^ shift
    → feed n shift (write_groups fuel w ++ rest) ≡ ok (n + w * 2 ^ shift, rest)
feed-write_groups zero w n shift rest hw hn = feed_last zero w n shift rest (omega arith) hn
feed-write_groups (suc fuel) w n shift rest hw hn = elim (dec_lt w 128) [
  | yes last ↦ feed_last (suc fuel) w n shift rest last hn
  | no more ↦
      let big : 128 ≤ w = omega arith in
      let g = w % 128 in
      let acc = n + g * 2 ^ shift in
      rw (write_groups-more fuel w big) (
        rw (bit_and-127 (g + 128), group_of_byte g (omega arith), bit_or-disjoint shift n g hn)
          (read_groups-more (g + 128) acc (shift + 7) (write_groups fuel (w / 128) ++ rest)
              (omega arith) (omega arith)
            ∙ feed-write_groups fuel (w / 128) acc (shift + 7) rest (omega arith)
                (group_fits g n shift (omega arith) hn)
            ∙ ap (λ (t : ℕ). ok (t, rest)) (omega (arith, regroup w shift))))
]

-- The whole number, from its first byte on.
start_long :
    (fo : Bytes) (m : ℕ) (rest : Bytes)
    → feed 0 0 fo ≡ ok (m, rest)
    → read_long fo ≡ ok (unzigzag m, rest)
unfolding read_long
start_long [] m rest h = cc
start_long (b ∷ fo) m rest h =
    let first = ap (λ (t : ℕ). read_groups b t 7 fo) (sym (first_group (bit_and b 0x7f))) in
    rw (first ∙ h)

-- Every number of groups is read back, whatever follows.
pub read_long-write_groups :
    (n : ℕ) (rest : Bytes) → read_long (write_groups n n ++ rest) ≡ ok (unzigzag n, rest)
read_long-write_groups n rest = start_long (write_groups n n ++ rest) n rest (
    feed-write_groups n n 0 0 rest (omega arith) (omega arith)
    ∙ ap (λ (t : ℕ). ok (t, rest)) (omega arith))

-- The integers of an Avro long.
abbrev pub IsLong : ℤ → Type 0
IsLong n = (pos_part n < 2 ^ 63) × (neg_part n ≤ 2 ^ 63)

unzigzag-even : (n : ℕ) → unzigzag (2 * n) ≡ pos n
unfolding unzigzag ◌-ℤ◌
unzigzag-even n = ground (arith, bit_and-1 (2 * n), bit_xor-zero (2 * n / 2))

unzigzag-odd : (n : ℕ) → unzigzag (2 * n + 1) ≡ negsuc n
unfolding unzigzag ◌-ℤ◌
unzigzag-odd n = ground (arith, bit_and-1 (2 * n + 1), bit_xor-zero ((2 * n + 1) / 2))

xor_none : (x y : ℕ) → y ≡ 0 → bit_xor x y ≡ x
xor_none x zero e = bit_xor-zero x
xor_none x (suc y) e = absurd (omega arith)

zigzag_pos : (n : ℕ) → n < 2 ^ 63 → zigzag (pos n) ≡ 2 * n
unfolding zigzag
zigzag_pos n h = xor_none (n * 2) (n / 2 ^ 63) (omega arith) ∙ omega arith

zigzag_negsuc : (n : ℕ) → n < 2 ^ 63 → zigzag (negsuc n) ≡ 2 * n + 1
unfolding zigzag
zigzag_negsuc n h = xor_none (n * 2 + 2 - 1) (n / 2 ^ 63) (omega arith) ∙ omega arith

xor_one : (x y : ℕ) → y ≡ 1 → bit_xor x y ≡ bit_xor x 1
xor_one x y e = rw e

wide_pos : (n : ℕ) → 2 ^ 63 ≤ n → n < 2 ^ 64 → zigzag (pos n) ≡ 2 * n + 1
unfolding zigzag
wide_pos n lo hi =
    xor_one (n * 2) (n / 2 ^ 63) (omega arith)
    ∙ omega (arith, ap (λ (t : ℕ). bit_xor t 1) (twice n), bit_xor-one n 0)
  where
    twice : (m : ℕ) → m * 2 ≡ 2 * m + 0
    twice m = omega arith

wide_negsuc : (n : ℕ) → 2 ^ 63 ≤ n → n < 2 ^ 64 → zigzag (negsuc n) ≡ 2 * n
unfolding zigzag
wide_negsuc n lo hi =
    xor_one (n * 2 + 2 - 1) (n / 2 ^ 63) (omega arith)
    ∙ omega (arith, ap (λ (t : ℕ). bit_xor t 1) (twice n), bit_xor-one n 1)
  where
    twice : (m : ℕ) → m * 2 + 2 - 1 ≡ 2 * m + 1
    twice m = omega arith

-- What `write_long` writes for an integer from -(2 ^ 63) to 2 ^ 63 - 1, `read_long` reads back, and it
-- leaves what follows.
pub read_long-write_long :
    (n : ℤ) (rest : Bytes) → IsLong n → read_long (output (write_long n) ++ rest) ≡ ok (n, rest)
unfolding write_long write_int
read_long-write_long (pos n) rest h =
    read_long-write_groups (zigzag (pos n)) rest
    ∙ ap (λ (t : ℤ). ok (t, rest)) (rw (zigzag_pos n h.0) (unzigzag-even n))
read_long-write_long (negsuc n) rest h =
    read_long-write_groups (zigzag (negsuc n)) rest
    ∙ ap (λ (t : ℤ). ok (t, rest)) (rw (zigzag_negsuc n h.1) (unzigzag-odd n))

pub write_long-eq_wrote : (n : ℤ) → write_long n ≡ wrote (output (write_long n))
unfolding write_long write_int
write_long-eq_wrote n = refl

-- Integers from 2 ^ 63 to 2 ^ 64 - 1 and their complements, which are out of the range of 64 bits, are
-- written without an exception, and each is read back as its complement: n as -n - 1, and -n - 1 as n.
pub read_long-write_long_wide :
    (n : ℕ) (rest : Bytes)
    → 2 ^ 63 ≤ n
    → n < 2 ^ 64
    → ((write_long (pos n) ≡ wrote (output (write_long (pos n))))
        × (read_long (output (write_long (pos n)) ++ rest) ≡ ok (negsuc n, rest)))
      × ((write_long (negsuc n) ≡ wrote (output (write_long (negsuc n))))
          × (read_long (output (write_long (negsuc n)) ++ rest) ≡ ok (pos n, rest)))
unfolding write_long write_int
read_long-write_long_wide n rest lo hi = (
  (
    write_long-eq_wrote (pos n),
    read_long-write_groups (zigzag (pos n)) rest
        ∙ ap (λ (t : ℤ). ok (t, rest)) (rw (wide_pos n lo hi) (unzigzag-odd n)),
  ),
  (
    write_long-eq_wrote (negsuc n),
    read_long-write_groups (zigzag (negsuc n)) rest
        ∙ ap (λ (t : ℤ). ok (t, rest)) (rw (wide_negsuc n lo hi) (unzigzag-even n)),
  ),
)
