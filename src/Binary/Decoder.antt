-- ===== src/Binary/Decoder.antt =====
-- fastavro/io/binary_decoder.py: each method reads from the bytes that its file has left.
use fastavro.Prelude.{
  ℕ, zero, suc, ◌+◌, ◌*◌, ◌/◌, ◌^◌, Bool, true, false, not, [], ◌∷◌, bit_and, bit_or, ◌==◌,
  if◌then◌else◌, length,
}
use fastavro.Python.Errors.{Result, ok, err, eof_error, struct_error, type_error, out_of_rounds}
use fastavro.Python.Ints.{ℤ, pos, negsuc, xor_ℤ, neg, ltb_ℤ, eq_ℤ}
use fastavro.Python.Text.{Text, Bytes}
use fastavro.Python.Floats.{Float, double_of_single, from_bytes}
use fastavro.Python.Files.{read, Reader, pure, fail, ◌>>=◌}
use fastavro.Datum.{Datum, null}

unfoldable pub read_null : Reader Datum
read_null = pure null

-- `unpack("B", self.fo.read(1))[0] != 0`
unfoldable pub read_boolean : Reader Bool
read_boolean [] = err struct_error
read_boolean (b ∷ fo) = ok (not (b == 0), fo)

-- The loop over the bytes after the first. `ord` refuses what an exhausted file returns.
unfoldable pub read_groups : ℕ → ℕ → ℕ → Reader ℕ
read_groups b n shift [] = if bit_and b 0x80 == 0 then ok (n, []) else err type_error
read_groups b n shift (b' ∷ fo) =
    if bit_and b 0x80 == 0
    then ok (n, b' ∷ fo)
    else read_groups b' (bit_or n (bit_and b' 0x7f * 2 ^ shift)) (shift + 7) fo

-- `(n >> 1) ^ -(n & 1)`
unfoldable pub unzigzag : ℕ → ℤ
unzigzag n = xor_ℤ (pos (n / 2)) (neg (pos (bit_and n 1)))

unfoldable pub read_long : Reader ℤ
read_long [] = err eof_error
read_long (b ∷ fo) = (read_groups b (bit_and b 0x7f) 7 >>= λ n. pure (unzigzag n)) fo

-- `unpack(f, self.fo.read(size))` wants `size` bytes.
unfoldable pub unpack : ℕ → Reader ℕ
unpack size fo =
    let (out, rest) = read (pos size) fo in
    if length out == size then ok (from_bytes out, rest) else err struct_error

unfoldable pub read_float : Reader Float
read_float = do s ← unpack 4; pure (double_of_single s)

unfoldable pub read_double : Reader Float
read_double = unpack 8

unfoldable pub read_bytes : Reader Bytes
read_bytes = do
  size ← read_long
  out ← λ fo. ok (read size fo)
  fail (if eq_ℤ (pos (length out)) size then ok out else err eof_error)

-- `self.read_bytes().decode(errors=handle_unicode_errors)`: the argument decodes as that says.
unfoldable pub read_utf8 : (Bytes → Result Text) → Reader Text
read_utf8 decode_with = do b ← read_bytes; fail (decode_with b)

unfoldable pub read_fixed : ℤ → Reader Bytes
read_fixed size fo =
    let (out, rest) = read size fo in
    if ltb_ℤ (pos (length out)) size then err eof_error else ok (out, rest)

unfoldable pub read_enum : Reader ℤ
read_enum = read_long

unfoldable pub read_index : Reader ℤ
read_index = read_long

-- `for i in range(self._block_count): yield`, with the loop body as an argument.
unfoldable pub repeat {ℓ} : {A : Type ℓ} → ℕ → (A → Reader A) → A → Reader A
repeat zero body acc = pure acc
repeat (suc n) body acc = body acc >>= λ acc'. repeat n body acc'

-- The number of items in a block; after a negative count stands the size of the block, unused.
unfoldable pub block_items : ℤ → Reader ℕ
block_items (pos n) = pure n
block_items (negsuc n) = read_long >>= λ size. pure (suc n)

-- `while self._block_count != 0`. A round reads a count, so there are fewer rounds than bytes.
unfoldable pub iter_blocks {ℓ} : {A : Type ℓ} → ℕ → (A → Reader A) → ℤ → A → Reader A
iter_blocks zero body count acc fo = err out_of_rounds
iter_blocks (suc rounds) body count acc fo = elim (eq_ℤ count (pos 0)) [
  | true ↦ ok (acc, fo)
  | false ↦
      (block_items count >>= λ n.
      repeat n body acc >>= λ acc'. read_long >>= λ count'. iter_blocks rounds body count' acc')
        fo
]

-- `read_array_start`, the loop over `iter_array`, and `read_array_end`; a map is read likewise.
unfoldable pub iter_array_or_map {ℓ} : {A : Type ℓ} → (A → Reader A) → A → Reader A
iter_array_or_map body acc =
    read_long >>= λ count fo. iter_blocks (suc (length fo)) body count acc fo
