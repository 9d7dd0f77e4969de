-- ===== src/RoundTrip/Blocks.antt =====
-- A block of items, as the writers write it, against the loop over blocks of the readers.
use fastavro.Prelude.{
  ℕ, zero, suc, ◌^◌, ◌<◌, false, [], ◌∷◌, ◌++◌, ◌≡◌, ◌≢◌, refl, arith, length, length-append,
  append_assoc, ◌==◌,
}
use fastavro.Python.Errors.{ok, Written, wrote, output, ◌>>◌}
use fastavro.Python.Ints.{pos}
use fastavro.Python.Text.{Bytes}
use fastavro.Python.Files.{Reader}
use fastavro.Binary.Encoder.{write_item_count, write_long, write_int, write_groups, zigzag}
use fastavro.Binary.Decoder.{read_long, block_items, repeat, iter_blocks, iter_array_or_map}
use fastavro.Binary.Varint.{write_long-eq_wrote, read_long-write_long}
use fastavro.RoundTrip.Transmits.{Transmits}

-- The end of the blocks is one zero byte.
pub write_long-zero : write_long (pos 0) ≡ wrote (0 ∷ [])
unfolding write_long write_int write_groups zigzag
write_long-zero = refl

read_long-zero : (rest : Bytes) → read_long (0 ∷ rest) ≡ ok (pos 0, rest)
unfolding write_long write_int write_groups zigzag
read_long-zero rest = read_long-write_long (pos 0) rest (omega arith)

pub ne_zero : (n : ℕ) → n ≢ 0 → (n == 0) ≡ false
ne_zero n h = ground arith

module _ {A : Type 0} (body : A → Reader A) where
  iter_blocks-end :
      (rounds : ℕ) (acc : A) (fo : Bytes)
      → 0 < rounds
      → iter_blocks rounds body (pos 0) acc fo ≡ ok (acc, fo)
  unfolding iter_blocks
  iter_blocks-end zero acc fo h = absurd (omega arith)
  iter_blocks-end (suc rounds) acc fo h = refl

  iter_blocks-block :
      (rounds n : ℕ) (acc acc' : A) (items rest : Bytes)
      → 0 < rounds
      → n ≢ 0
      → repeat n body acc (items ++ (0 ∷ rest)) ≡ ok (acc', 0 ∷ rest)
      → iter_blocks (suc rounds) body (pos n) acc (items ++ (0 ∷ rest)) ≡ ok (acc', rest)
  unfolding iter_blocks block_items
  iter_blocks-block rounds n acc acc' items rest hr hn e =
      rw (ne_zero n hn, iter_blocks)
        (rw e (rw (read_long-zero rest) (iter_blocks-end rounds acc' rest hr)))

  -- No item: the end alone.
  pub transmit_empty : (acc : A) → Transmits (write_long (pos 0)) (iter_array_or_map body acc) acc
  unfolding iter_array_or_map
  transmit_empty acc = (
    0 ∷ [],
    write_long-zero,
    λ rest. rw (read_long-zero rest) (iter_blocks-end (suc (length rest)) acc rest (omega arith)),
  )

  -- One block of `n` items and the end.
  pub transmit_block :
      (n : ℕ) (acc acc' : A) (w : Written)
      → n ≢ 0
      → n < 2 ^ 63
      → Transmits w (repeat n body acc) acc'
      → Transmits
          ((write_item_count n >> w) >> write_long (pos 0))
          (iter_array_or_map body acc)
          acc'
  unfolding iter_array_or_map write_item_count
  transmit_block n acc acc' w hn h (out, e, read_items) = (
    (output (write_long (pos n)) ++ out) ++ (0 ∷ []),
    written,
    λ rest.
        rw (append_assoc, append_assoc)
          (rw (read_long-write_long (pos n) (out ++ (0 ∷ rest)) (h, omega arith)) (
            iter_blocks-block (length (out ++ (0 ∷ rest))) n acc acc' out rest
              (rw length-append (omega arith)) hn (read_items (0 ∷ rest)))),
  )
    where
      written :
          ((write_long (pos n) >> w) >> write_long (pos 0))
          ≡ wrote ((output (write_long (pos n)) ++ out) ++ (0 ∷ []))
      written = rw (e, write_long-zero) (rw (write_long-eq_wrote (pos n)))
