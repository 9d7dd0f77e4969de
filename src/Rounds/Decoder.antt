-- ===== src/Rounds/Decoder.antt =====
-- The methods of fastavro/io/binary_decoder.py end.
use fastavro.Prelude.{
  ℕ, zero, suc, ◌≤◌, ◌<◌, Bool, Bool-cases, inl, inr, [], ◌∷◌, take, drop, length-drop, length,
  ◌==◌, if◌then◌else◌, arith, bit_and,
}
use fastavro.Python.Errors.{Result, ok, err, eof_error, struct_error, type_error}
use fastavro.Python.Errors.InRounds.{InRounds, InRounds-if}
use fastavro.Python.Ints.{ℤ, pos, negsuc, eq_ℤ, ltb_ℤ}
use fastavro.Python.Text.{Text, Bytes}
use fastavro.Python.Floats.{from_bytes}
use fastavro.Python.Files.{Reader, read, pure, ◌>>=◌}
use fastavro.Binary.Decoder.{
  read_index, read_enum, read_null, read_boolean, read_groups, unzigzag, read_long, unpack,
  read_float, read_double, read_bytes, read_utf8, read_fixed, repeat, block_items, iter_blocks,
  iter_array_or_map,
}
use fastavro.Rounds.Shrinks.{
  Bounded, Shrinks, Bounded-weaken, Bounded-bind, Shrinks-bind, Shrinks-pure, fail-Bounded,
}

if-Bounded {ℓ} :
    {A : Type ℓ} (n : ℕ) (b : Bool) (x y : Result (A × Bytes))
    → Bounded n x
    → Bounded n y
    → Bounded n (if b then x else y)
if-Bounded n Bool.true x y h k = h
if-Bounded n Bool.false x y h k = k

pub read_null-Shrinks : Shrinks read_null
unfolding read_null
read_null-Shrinks = Shrinks-pure _

pub read_boolean-Shrinks : Shrinks read_boolean
unfolding read_boolean Bounded
read_boolean-Shrinks [] = tt
read_boolean-Shrinks (b ∷ fo) = omega arith

read_groups-Shrinks : (b n shift : ℕ) → Shrinks (read_groups b n shift)
unfolding read_groups Bounded
read_groups-Shrinks b n shift [] =
    if-Bounded 0 (bit_and b 0x80 == 0) (ok (n, [])) (err type_error) (omega arith) tt
read_groups-Shrinks b n shift (b' ∷ fo) =
    if-Bounded (suc (length fo)) (bit_and b 0x80 == 0) (ok (n, b' ∷ fo)) _ (omega arith)
      (Bounded-weaken (length fo) (suc (length fo)) _ (omega arith) (read_groups-Shrinks b' _ _ fo))

-- An integer takes one byte at least.
read_long-Bounded : (fo : Bytes) (n : ℕ) → length fo ≤ suc n → Bounded n (read_long fo)
unfolding read_long Bounded
read_long-Bounded [] n h = tt
read_long-Bounded (b ∷ fo) n h = Bounded-weaken (length fo) n _ (omega (arith, h)) (
    Shrinks-bind (read_groups b (bit_and b 0x7f) 7) (λ k. pure (unzigzag k))
      (read_groups-Shrinks b (bit_and b 0x7f) 7) (λ k. Shrinks-pure (unzigzag k)) fo)

pub read_long-Shrinks : Shrinks read_long
read_long-Shrinks fo = read_long-Bounded fo (length fo) (omega arith)

pub read_index-Shrinks : Shrinks read_index
unfolding read_index
read_index-Shrinks = read_long-Shrinks

pub read_enum-Shrinks : Shrinks read_enum
unfolding read_enum
read_enum-Shrinks = read_long-Shrinks

take-Bounded : (size : ℤ) (fo : Bytes) → length (read size fo).1 ≤ length fo
take-Bounded (pos n) fo = omega (arith, length-drop n fo)
take-Bounded (negsuc n) fo = omega arith

unpack-Shrinks : (size : ℕ) → Shrinks (unpack size)
unfolding unpack Bounded
unpack-Shrinks size fo =
    if-Bounded (length fo) (length (take size fo) == size)
      (ok (from_bytes (take size fo), drop size fo)) (err struct_error) (take-Bounded (pos size) fo)
      tt

pub read_float-Shrinks : Shrinks read_float
unfolding read_float
read_float-Shrinks = Shrinks-bind (unpack 4) _ (unpack-Shrinks 4) (λ s. Shrinks-pure _)

pub read_double-Shrinks : Shrinks read_double
unfolding read_double
read_double-Shrinks = unpack-Shrinks 8

pub read_bytes-Shrinks : Shrinks read_bytes
unfolding read_bytes Bounded InRounds
read_bytes-Shrinks = Shrinks-bind read_long _ read_long-Shrinks (λ size.
    Shrinks-bind (λ fo. ok (read size fo)) _ (take-Bounded size)
      (λ out.
        fail-Bounded _ (InRounds-if (eq_ℤ (pos (length out)) size) (ok out) (err eof_error) tt tt)))

pub read_utf8-Shrinks :
    (decode_with : Bytes → Result Text)
    → ((b : Bytes) → InRounds (decode_with b))
    → Shrinks (read_utf8 decode_with)
unfolding read_utf8
read_utf8-Shrinks decode_with h =
    Shrinks-bind read_bytes _ read_bytes-Shrinks (λ b. fail-Bounded (decode_with b) (h b))

pub read_fixed-Shrinks : (size : ℤ) → Shrinks (read_fixed size)
unfolding read_fixed Bounded
read_fixed-Shrinks size fo =
    if-Bounded (length fo) (ltb_ℤ (pos (length (read size fo).0)) size) (err eof_error)
      (ok ((read size fo).0, (read size fo).1)) tt (take-Bounded size fo)

module _ {ℓ} {A : Type ℓ} (body : A → Reader A) (ih : (acc : A) → Shrinks (body acc)) where
  repeat-Shrinks : (n : ℕ) (acc : A) → Shrinks (repeat n body acc)
  unfolding repeat
  repeat-Shrinks zero acc = Shrinks-pure acc
  repeat-Shrinks (suc n) acc = Shrinks-bind (body acc) _ (ih acc) (λ acc'. repeat-Shrinks n acc')

  block_items-Shrinks : (count : ℤ) → Shrinks (block_items count)
  unfolding block_items
  block_items-Shrinks (pos n) = Shrinks-pure n
  block_items-Shrinks (negsuc n) =
      Shrinks-bind read_long _ read_long-Shrinks (λ size. Shrinks-pure _)

  -- The count after a block takes a byte, so that fewer rounds are left for fewer bytes.
  next_block-Bounded :
      (rounds : ℕ) (acc : A)
      → ((count : ℤ) (fo : Bytes)
          → length fo < rounds
          → Bounded (length fo) (iter_blocks rounds body count acc fo))
      → (fo : Bytes) → length fo ≤ rounds
      → Bounded (length fo) ((read_long >>= λ count. iter_blocks rounds body count acc) fo)
  unfolding Bounded read_long
  next_block-Bounded rounds acc h [] le = tt
  next_block-Bounded rounds acc h (b ∷ fo) le =
      Bounded-weaken (length fo) (suc (length fo)) _ (omega arith) (
        Bounded-bind (length fo) (read_long (b ∷ fo)) _
          (read_long-Bounded (b ∷ fo) (length fo) (omega arith))
          (λ count rest shorter.
            Bounded-weaken (length rest) (length fo) _ shorter
              (h count rest (omega (arith, le, shorter)))))

  -- The bytes that are left are an upper bound on the rounds.
  iter_blocks-Bounded :
      (rounds : ℕ) (count : ℤ) (acc : A) (fo : Bytes)
      → length fo < rounds
      → Bounded (length fo) (iter_blocks rounds body count acc fo)
  unfolding iter_blocks Bounded
  iter_blocks-Bounded zero count acc fo h = absurd (omega (arith, h))
  iter_blocks-Bounded (suc rounds) count acc fo h = elim (Bool-cases (eq_ℤ count (pos 0))) [
    | inl end ↦ rw (iter_blocks, end) (omega arith)
    | inr more ↦
        rw (iter_blocks, more)
          (Bounded-bind (length fo) (block_items count fo) _ (block_items-Shrinks count fo)
            (λ n mid le.
              Bounded-bind (length fo) (repeat n body acc mid) _
                (Bounded-weaken (length mid) (length fo) _ le (repeat-Shrinks n acc mid))
                (λ acc' last le'. Bounded-weaken (length last) (length fo) _ le' (
                  next_block-Bounded rounds acc' (λ c. iter_blocks-Bounded rounds c acc') last
                    (omega (arith, h, le'))))))
  ]

  pub iter_array_or_map-Shrinks : (acc : A) → Shrinks (iter_array_or_map body acc)
  unfolding iter_array_or_map
  iter_array_or_map-Shrinks acc =
      Shrinks-bind read_long _ read_long-Shrinks
        (λ count fo. iter_blocks-Bounded (suc (length fo)) count acc fo (omega arith))
