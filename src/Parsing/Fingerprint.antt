-- ===== src/Parsing/Fingerprint.antt =====
-- `rabin_fingerprint` (fastavro/_schema_common.py) and `fingerprint` (fastavro/_schema_py.py).
pub mod Rabin
use fastavro.Prelude.{
  ℕ, zero, suc, ◌+◌, ◌-◌, ◌/◌, ◌%◌, ◌^◌, Bool, true, false, not, ◌||◌, List, [], ◌∷◌, ◌++◌, ◌==◌,
  ltb, if◌then◌else◌, get_elem?, bit_and, bit_xor, Option,
}
use fastavro.Python.Errors.{Result, ok, err, bind, from_option, index_error, value_error}
use fastavro.Python.Text.{Text, Bytes, text, eq_text, encode}

abbrev pub empty_64 : ℕ
empty_64 = 0xc15d213aa4d7a795

-- `mask = -(fp & 1)` and `fp = (fp >> 1) ^ (empty_64 & mask)`: the mask is -1, which is all ones, or 0.
unfoldable pub rabin_round : ℕ → ℕ
rabin_round fp = let masked = if bit_and fp 1 == 0 then 0 else empty_64 in bit_xor (fp / 2) masked

unfoldable pub rabin_rounds : ℕ → ℕ → ℕ
unfolding rabin_round
rabin_rounds zero fp = fp
rabin_rounds (suc n) fp = rabin_rounds n (rabin_round fp)

-- The entries of `fp_table` from i on.
unfoldable pub fp_table_from : ℕ → ℕ → List ℕ
unfolding rabin_rounds
fp_table_from zero i = []
fp_table_from (suc n) i = rabin_rounds 8 i ∷ fp_table_from n (suc i)

unfoldable pub fp_table : List ℕ
unfolding fp_table_from
fp_table = fp_table_from 256 0

-- `for byte in data: result = (result >> 8) ^ fp_table[(result ^ byte) & 0xFF]`
unfoldable pub rabin_bytes : ℕ → Bytes → Result ℕ
unfolding fp_table
rabin_bytes result [] = ok result
rabin_bytes result (byte ∷ rest) =
    bind (from_option index_error (get_elem? fp_table (bit_and (bit_xor result byte) 0xff)))
      (λ entry. rabin_bytes (bit_xor (result / 256) entry) rest)

abbrev hex_digit : ℕ → ℕ
hex_digit d = if ltb d 10 then 48 + d else 87 + d

-- `result.to_bytes(length=8, byteorder="little", signed=False).hex()`
unfoldable pub little_hex : ℕ → ℕ → Text
little_hex zero n = []
little_hex (suc size) n = hex_digit (n % 256 / 16) ∷ hex_digit (n % 16) ∷ little_hex size (n / 256)

unfoldable pub rabin_fingerprint : Bytes → Result Text
unfolding rabin_bytes little_hex
rabin_fingerprint bytes = bind (rabin_bytes empty_64 bytes) (λ result. ok (little_hex 8 result))

-- What `hashlib` has: its algorithms by name, and the hexadecimal digest of some bytes.
pub record HashLib : Type 0 where
  pub guarantees : Text → Bool
  pub hexdigest : Text → Bytes → Result Text

abbrev is_java : Text → Bool
is_java algorithm = eq_text algorithm (text "SHA-256") || eq_text algorithm (text "MD5")

-- `algorithm in FINGERPRINT_ALGORITHMS`
unfoldable pub is_fingerprint_algorithm : HashLib → Text → Bool
is_fingerprint_algorithm lib algorithm =
    lib.guarantees algorithm || (is_java algorithm || eq_text algorithm (text "CRC-64-AVRO"))

-- `JAVA_FINGERPRINT_MAPPING.get(algorithm, algorithm)`
unfoldable pub python_name : Text → Text
python_name algorithm =
    if eq_text algorithm (text "SHA-256")
    then text "sha256"
    else if eq_text algorithm (text "MD5")
    then text "md5"
    else algorithm

unfoldable pub fingerprint : HashLib → Text → Text → Result Text
unfolding is_fingerprint_algorithm python_name rabin_fingerprint
fingerprint lib parsing_canonical_form algorithm =
    let name = python_name algorithm in
    if not (is_fingerprint_algorithm lib algorithm)
    then err value_error
    else bind (encode parsing_canonical_form) (λ bytes.
      if eq_text name (text "CRC-64-AVRO")
      then rabin_fingerprint bytes
      else lib.hexdigest name bytes)
