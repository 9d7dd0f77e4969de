-- ===== src/Logical/Digits.antt =====
-- Numbers by their decimal digits and by their bytes, most significant first.
pub mod BigEndian
use fastavro.Prelude.{
  ℕ, zero, suc, ◌+◌, ◌-◌, ◌*◌, ◌/◌, ◌%◌, ◌^◌, List, [], ◌∷◌, ◌++◌, ltb, leb, ◌==◌, if◌then◌else◌,
  length,
}
use fastavro.Python.Errors.{Result, ok, err, overflow_error}
use fastavro.Python.Ints.{ℤ, pos, negsuc, neg}
use fastavro.Python.Text.{Bytes}

-- `unscaled_datum = (unscaled_datum * 10) + digit`, for each digit.
unfoldable pub digits_value : ℕ → List ℕ → ℕ
digits_value n [] = n
digits_value n (d ∷ ds) = digits_value (n * 10 + d) ds

-- The digits of a number, of which 0 has one.
unfoldable pub digits_upto : ℕ → ℕ → List ℕ
digits_upto zero n = n ∷ []
digits_upto (suc fuel) n =
    let front = digits_upto fuel (n / 10) in if ltb n 10 then n ∷ [] else front ++ (n % 10 ∷ [])

unfoldable pub decimal_digits : ℕ → List ℕ
unfolding digits_upto
decimal_digits n = digits_upto n n

-- `bytes([n >> (8 * index) & 0xFF])` for each index from `size - 1` down to 0.
unfoldable pub big_bytes : ℕ → ℕ → Bytes
big_bytes zero n = []
big_bytes (suc index) n = n / 256 ^ index % 256 ∷ big_bytes index n

-- `n.to_bytes(size, byteorder="big", signed=True)`
unfoldable pub to_signed_bytes : ℕ → ℤ → Result Bytes
unfolding big_bytes
to_signed_bytes size (pos n) =
    if ltb (2 * n) (256 ^ size) then ok (big_bytes size n) else err overflow_error
to_signed_bytes size (negsuc n) =
    if ltb (suc (2 * n)) (256 ^ size)
    then ok (big_bytes size (256 ^ size - suc n))
    else err overflow_error

-- `int.from_bytes(data, byteorder="big")`, without and with `signed=True`.
unfoldable pub big_value : ℕ → Bytes → ℕ
big_value n [] = n
big_value n (b ∷ bs) = big_value (n * 256 + b) bs

unfoldable pub from_signed_bytes : Bytes → ℤ
unfolding big_value
from_signed_bytes bs =
    let n = big_value 0 bs in
    let span = 256 ^ length bs in if ltb (2 * n) span then pos n else neg (pos (span - n))
