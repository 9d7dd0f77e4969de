-- ===== src/Binary/Encoder.antt =====
-- fastavro/io/binary_encoder.py: each method by what it writes to its file.
use fastavro.Prelude.{ℕ, zero, suc, ◌/◌, [], ◌∷◌, bit_and, bit_or, if◌then◌else◌}
use fastavro.Python.Errors.{
  Result, err, Written, wrote, raised, ◌>>=◌, ◌>>◌, type_error, struct_error,
}
use fastavro.Python.Ints.{ℤ, pos, shl, shr, xor_ℤ, and_ℤ, invert, pos_part, eq_ℤ}
use fastavro.Python.Text.{Bytes, encode}
use fastavro.Python.Floats.{single_of_double, to_bytes}
use fastavro.Datum.{Datum, str, bytes, int, len, as_int, is_truthy, real, Platform}

-- `self._fo.write(datum)`: a file of bytes takes bytes.
unfoldable pub write_raw : Datum → Written
write_raw (bytes b) = wrote b
write_raw _ = raised type_error []

unfoldable pub write_null : Written
write_null = wrote []

unfoldable pub write_boolean : Datum → Written
write_boolean datum = wrote ((if is_truthy datum then 1 else 0) ∷ [])

-- `(datum << 1) ^ (datum >> 63)`: the two shifts of an integer have its sign, so this is no negative
-- number.
unfoldable pub zigzag : ℤ → ℕ
zigzag n = pos_part (xor_ℤ (shl n 1) (shr n 63))

-- `while (datum & ~0x7F) != 0`; a round divides the number by 128, so the number itself is enough
-- fuel.
unfoldable pub write_groups : ℕ → ℕ → Bytes
write_groups zero n = n ∷ []
write_groups (suc fuel) n =
    let rest = write_groups fuel (n / 128) in
    if eq_ℤ (and_ℤ (pos n) (invert (pos 0x7f))) (pos 0)
    then n ∷ []
    else bit_or (bit_and n 0x7f) 0x80 ∷ rest

unfoldable pub write_int : Datum → Written
write_int datum = do n ← as_int datum; wrote (write_groups (zigzag n) (zigzag n))

-- `write_long = write_int`
unfoldable pub write_long : ℤ → Written
write_long n = write_int (int n)

unfoldable pub write_float : Platform → Datum → Written
write_float py datum = do
  d ← real py struct_error datum
  s ← single_of_double d
  wrote (to_bytes 4 s)

unfoldable pub write_double : Platform → Datum → Written
write_double py datum = do d ← real py struct_error datum; wrote (to_bytes 8 d)

-- The length is on the file before the bytes are known to be bytes.
unfoldable pub write_bytes : Datum → Written
write_bytes datum = do size ← len datum; write_long (pos size); write_raw datum

abbrev pub encoded : Datum → Result Bytes
encoded (str s) = encode s
encoded _ = err type_error

unfoldable pub write_utf8 : Datum → Written
write_utf8 datum = do b ← encoded datum; write_bytes (bytes b)

unfoldable pub write_fixed : Datum → Written
write_fixed datum = write_raw datum

unfoldable pub write_enum : ℕ → Written
write_enum index = write_int (int (pos index))

unfoldable pub write_array_start : Written
write_array_start = wrote []

unfoldable pub write_item_count : ℕ → Written
write_item_count length = write_long (pos length)

unfoldable pub end_item : Written
end_item = wrote []

unfoldable pub write_array_end : Written
write_array_end = write_long (pos 0)

unfoldable pub write_map_start : Written
write_map_start = wrote []

unfoldable pub write_map_end : Written
write_map_end = write_long (pos 0)

unfoldable pub write_index : ℕ → Written
write_index index = write_long (pos index)
