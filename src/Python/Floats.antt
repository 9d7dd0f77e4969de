-- ===== src/Python/Floats.antt =====
-- Python floats: a double is its 64 bits. Conversions round to nearest, ties to even.
use fastavro.Prelude.{
  ℕ, zero, suc, ◌+◌, ◌-◌, ◌*◌, ◌/◌, ◌%◌, ◌^◌, bit_or, [], ◌∷◌, ltb, leb, ◌==◌, if◌then◌else◌,
}
use fastavro.Python.Errors.{Result, ok, err, bind, overflow_error}
use fastavro.Python.Ints.{ℤ, pos, negsuc}
use fastavro.Python.Text.{Bytes}

abbrev pub Float : Type 0
Float = ℕ

-- `q` or `q + 1` for `n / 2 ^ k`.
unfoldable pub round_shift : ℕ → ℕ → ℕ
round_shift n k =
    let q = n / 2 ^ k in
    let r = n % 2 ^ k in
    if ltb (2 ^ k) (2 * r) then q + 1 else if (2 * r == 2 ^ k) then q + q % 2 else q

-- `int.bit_length` for a number below 2 ^ fuel.
unfoldable pub bit_length_upto : ℕ → ℕ → ℕ
bit_length_upto zero n = 0
bit_length_upto (suc k) n = let rest = bit_length_upto k (n / 2) in if n == 0 then 0 else suc rest

unfoldable pub bit_length : ℕ → ℕ
unfolding bit_length_upto
bit_length n = bit_length_upto n n

-- `float(n)` for a number: 53 significant bits, at most 2 ^ 1024 - 2 ^ 970.
unfoldable pub float_of_ℕ : ℕ → Result Float
unfolding bit_length round_shift
float_of_ℕ n =
    let len = bit_length n in
    let digits = if leb len 53 then n * 2 ^ (53 - len) else round_shift n (len - 53) in
    let bits = (len + 1021) * 2 ^ 52 + digits in
    if n == 0 then ok 0 else if leb (2047 * 2 ^ 52) bits then err overflow_error else ok bits

-- `float(n)` for an integer.
unfoldable pub float_of_int : ℤ → Result Float
unfolding float_of_ℕ
float_of_int (pos n) = float_of_ℕ n
float_of_int (negsuc n) = bind (float_of_ℕ (suc n)) (λ f. ok (2 ^ 63 + f))

-- A single in 32 bits from a double, as `struct.pack` converts it. A NaN stays a NaN, and quiet.
unfoldable pub single_of_double : Float → Result ℕ
unfolding round_shift
single_of_double d =
    let sign = d / 2 ^ 63 * 2 ^ 31 in
    let exponent = d / 2 ^ 52 % 2048 in
    let fraction = d % 2 ^ 52 in
    let normal = (exponent - 897) * 2 ^ 23 + round_shift (2 ^ 52 + fraction) 29 in
    let subnormal = round_shift (2 ^ 52 + fraction) (926 - exponent) in
    if exponent == 2047
    then ok
        (sign + 255 * 2 ^ 23 + (if fraction == 0 then 0 else bit_or (fraction / 2 ^ 29) (2 ^ 22)))
    else if leb 897 exponent
    then if leb (255 * 2 ^ 23) normal then err overflow_error else ok (sign + normal)
    else if exponent == 0
    then ok sign
    else ok (sign + subnormal)

-- The double that `struct.unpack` makes of a single: every single is one exactly, but a NaN is
-- made quiet.
unfoldable pub double_of_single : ℕ → Float
unfolding bit_length
double_of_single s =
    let sign = s / 2 ^ 31 * 2 ^ 63 in
    let exponent = s / 2 ^ 23 % 256 in
    let fraction = s % 2 ^ 23 in
    let len = bit_length fraction in
    if exponent == 255
    then sign + 2047 * 2 ^ 52 + (if fraction == 0 then 0 else bit_or fraction (2 ^ 22) * 2 ^ 29)
    else if exponent == 0
    then if fraction == 0
      then sign
      else sign + (len + 873) * 2 ^ 52 + (fraction * 2 ^ (53 - len) - 2 ^ 52)
    else sign + (exponent + 896) * 2 ^ 52 + fraction * 2 ^ 29

-- `n.to_bytes(size, "little")`, and back.
unfoldable pub to_bytes : ℕ → ℕ → Bytes
to_bytes zero n = []
to_bytes (suc size) n = n % 256 ∷ to_bytes size (n / 256)

unfoldable pub from_bytes : Bytes → ℕ
from_bytes [] = 0
from_bytes (b ∷ bs) = b + 256 * from_bytes bs
