-- ===== src/Parsing/Fingerprint/Rabin.antt =====
-- The table of `rabin_fingerprint` does what the definition of the fingerprint does bit by bit
-- (fastavro/_schema_common.py).
use fastavro.Prelude.{
  ℕ, zero, suc, ◌+◌, ◌*◌, ◌/◌, ◌%◌, ◌^◌, ◌<◌, false, [], ◌∷◌, ◌==◌, if◌then◌else◌, get_elem?, All,
  bit_and, bit_xor, some, ◌≡◌, refl, sym, ap, ◌∙◌, arith,
}
use Prim.Native.Nat.{differ}
use native.Mathlib.Nat.{pow-suc}
use fastavro.Prelude.Bits.{bit_xor-zero, bit_and-1}
use fastavro.Prelude.Bits.Xor.{
  bit_xor-half, bit_xor-last, zero-bit_xor, bit_xor_self, bit_xor_cross, bit_xor-disjoint,
  bit_xor-shift_8, bit_and-255,
}
use fastavro.Python.Errors.{ok}
use fastavro.Python.Text.{Bytes, IsByte}
use fastavro.Parsing.Fingerprint.{
  empty_64, rabin_round, rabin_rounds, fp_table_from, fp_table, rabin_bytes,
}

-- The polynomial, if the lowest bit asks for it.
masked : ℕ → ℕ
masked zero = 0
masked (suc n) = empty_64

suc_nonzero : (d : ℕ) → (suc d == 0) ≡ false
suc_nonzero d = ground arith

masked_lem :
    (fp b d : ℕ)
    → b ≡ d
    → d < 2
    → bit_xor fp (if b == 0 then 0 else empty_64) ≡ bit_xor fp (masked d)
unfolding masked
masked_lem fp b zero e h = rw e refl
masked_lem fp b (suc d) e h = rw (e, suc_nonzero d) refl

rabin_round_lem : (fp : ℕ) → rabin_round fp ≡ bit_xor (fp / 2) (masked (fp % 2))
unfolding rabin_round
rabin_round_lem fp = masked_lem (fp / 2) (bit_and fp 1) (fp % 2) (bit_and-1 fp) (omega arith)

masked-differ : (a b : ℕ) → a < 2 → b < 2 → masked (differ a b) ≡ bit_xor (masked a) (masked b)
unfolding masked
masked-differ zero b h k = sym (zero-bit_xor (masked b))
masked-differ (suc zero) zero h k = sym (bit_xor-zero empty_64)
masked-differ (suc zero) (suc zero) h k = sym (bit_xor_self empty_64)
masked-differ (suc zero) (suc (suc b)) h k = absurd (omega arith)
masked-differ (suc (suc a)) b h k = absurd (omega arith)

-- The rounds are linear, and a number that is shifted far enough comes back from them.
rabin_round-bit_xor :
    (x y : ℕ) → rabin_round (bit_xor x y) ≡ bit_xor (rabin_round x) (rabin_round y)
rabin_round-bit_xor x y =
    rabin_round_lem (bit_xor x y)
    ∙ rw
        (
          bit_xor-half x y,
          bit_xor-last x y,
          masked-differ (x % 2) (y % 2) (omega arith) (omega arith),
          rabin_round_lem x,
          rabin_round_lem y,
        )
        (bit_xor_cross (x / 2) (y / 2) (masked (x % 2)) (masked (y % 2)))

rabin_rounds-bit_xor :
    (n x y : ℕ) → rabin_rounds n (bit_xor x y) ≡ bit_xor (rabin_rounds n x) (rabin_rounds n y)
unfolding rabin_rounds
rabin_rounds-bit_xor zero x y = refl
rabin_rounds-bit_xor (suc n) x y =
    ap (rabin_rounds n) (rabin_round-bit_xor x y)
    ∙ rabin_rounds-bit_xor n (rabin_round x) (rabin_round y)

rabin_round-double : (x y : ℕ) → x ≡ y * 2 → rabin_round x ≡ y
unfolding masked
rabin_round-double x y e =
    let half : x / 2 ≡ y = omega (arith, e) in
    let even : x % 2 ≡ 0 = omega (arith, e) in rabin_round_lem x ∙ rw (half, even) (bit_xor-zero y)

rabin_rounds-shift : (n a : ℕ) → rabin_rounds n (a * 2 ^ n) ≡ a
unfolding rabin_rounds
rabin_rounds-shift zero a = omega arith
rabin_rounds-shift (suc n) a =
    ap (rabin_rounds n)
      (rabin_round-double (a * 2 ^ suc n) (a * 2 ^ n) (rw (pow-suc 2 n) (omega arith)))
    ∙ rabin_rounds-shift n a

-- The definition of the fingerprint: each byte is added, and divided by the polynomial bit by bit.
unfoldable divide_bit : ℕ → ℕ
divide_bit fp = if fp % 2 == 0 then fp / 2 else bit_xor (fp / 2) empty_64

unfoldable divide_bits : ℕ → ℕ → ℕ
unfolding divide_bit
divide_bits zero fp = fp
divide_bits (suc n) fp = divide_bits n (divide_bit fp)

unfoldable pub fingerprint_by_bits : ℕ → Bytes → ℕ
unfolding divide_bits
fingerprint_by_bits fp [] = fp
fingerprint_by_bits fp (byte ∷ rest) = fingerprint_by_bits (divide_bits 8 (bit_xor fp byte)) rest

divide_bit_lem : (fp : ℕ) → divide_bit fp ≡ rabin_round fp
unfolding divide_bit masked
divide_bit_lem fp = by_bit (fp % 2) ∙ sym (rabin_round_lem fp)
  where
    by_bit :
        (d : ℕ)
        → (if d == 0 then fp / 2 else bit_xor (fp / 2) empty_64) ≡ bit_xor (fp / 2) (masked d)
    by_bit zero = sym (bit_xor-zero (fp / 2))
    by_bit (suc d) = rw (suc_nonzero d) refl

divide_bits_lem : (n fp : ℕ) → divide_bits n fp ≡ rabin_rounds n fp
unfolding divide_bits rabin_rounds
divide_bits_lem zero fp = refl
divide_bits_lem (suc n) fp =
    divide_bits_lem n (divide_bit fp) ∙ ap (rabin_rounds n) (divide_bit_lem fp)

-- One byte by the table.
rabin_byte :
    (fp byte : ℕ)
    → byte < 256
    → rabin_rounds 8 (bit_xor fp byte)
      ≡ bit_xor (fp / 256) (rabin_rounds 8 (bit_and (bit_xor fp byte) 0xff))
rabin_byte fp byte low =
    let x : ℕ = bit_xor fp byte in
    let parts : bit_xor (x / 256 * 2 ^ 8) (x % 256) ≡ x =
      bit_xor-disjoint 8 (x / 256) (x % 256) (omega arith) ∙ omega arith in
    ap (rabin_rounds 8) (sym parts)
    ∙ rabin_rounds-bit_xor 8 (x / 256 * 2 ^ 8) (x % 256)
    ∙ rw (rabin_rounds-shift 8 (x / 256), bit_xor-shift_8 fp byte low, bit_and-255 x) refl

get_elem?-fp_table_from :
    (n i j : ℕ) → j < n → get_elem? (fp_table_from n i) j ≡ some (rabin_rounds 8 (i + j))
unfolding fp_table_from
get_elem?-fp_table_from zero i j h = absurd (omega (arith, h))
get_elem?-fp_table_from (suc n) i zero h = ap (λ k. some (rabin_rounds 8 k)) (omega arith)
get_elem?-fp_table_from (suc n) i (suc j) h =
    get_elem?-fp_table_from n (suc i) j (omega (arith, h))
    ∙ ap (λ k. some (rabin_rounds 8 k)) (omega arith)

get_elem?-fp_table : (j : ℕ) → j < 256 → get_elem? fp_table j ≡ some (rabin_rounds 8 j)
unfolding fp_table
get_elem?-fp_table j h =
    get_elem?-fp_table_from 256 0 j h ∙ ap (λ k. some (rabin_rounds 8 k)) (omega arith)

-- On bytes, the loop of `rabin_fingerprint` raises no exception, and its table of 256 entries gives
-- what the division by the polynomial bit by bit gives.
pub rabin_bytes_lem :
    (fp : ℕ) (bytes : Bytes)
    → All IsByte bytes
    → rabin_bytes fp bytes ≡ ok (fingerprint_by_bits fp bytes)
unfolding rabin_bytes fingerprint_by_bits
rabin_bytes_lem fp [] h = refl
rabin_bytes_lem fp (byte ∷ rest) (low, h) =
    let x : ℕ = bit_and (bit_xor fp byte) 0xff in
    let small : x < 256 = omega (arith, bit_and-255 (bit_xor fp byte)) in
    rw
      (
        get_elem?-fp_table x small,
        sym (rabin_byte fp byte low),
        sym (divide_bits_lem 8 (bit_xor fp byte)),
      )
      (rabin_bytes_lem (divide_bits 8 (bit_xor fp byte)) rest h)
