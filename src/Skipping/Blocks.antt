-- ===== src/Skipping/Blocks.antt =====
-- Skipping over blocks of items and over fields, as the reader goes over them.
use fastavro.Prelude.{Bool-cases, inl, inr, ℕ, zero, suc, none, length}
use fastavro.Python.Ints.{ℤ, pos, eq_ℤ}
use fastavro.Python.Text.{decode}
use fastavro.Python.Files.{Reader, ◌>>=◌}
use fastavro.Datum.{Entries, nil, no_entries}
use fastavro.Schema.{Schema, Fields, no_fields, field}
use fastavro.Binary.Decoder.{
  read_long, read_utf8, repeat, block_items, iter_blocks, iter_array_or_map,
}
use fastavro.Read.Values.{
  Read, Skip, read_item, read_array, read_pair, read_map, skip_array, skip_map,
}
use fastavro.Read.Records.{read_fields, skip_record}
use fastavro.Skipping.Follows.{Follows, follow_pair, follow_same, follow_then, pure-rest}

module _ {A : Type 0} (body : A → Reader A) (t : Reader (Unit {0}))
    (h : (acc : A) → Follows (body acc) t) where
  follow_repeat : (n : ℕ) (acc : A) → Follows (repeat n body acc) (repeat n (λ _. t) tt)
  unfolding repeat
  follow_repeat zero acc fo rest b e = cc
  follow_repeat (suc n) acc fo rest b e =
      follow_pair (body acc) _ (h acc) (follow_repeat n) fo rest b e

  follow_blocks :
      (rounds : ℕ) (count : ℤ) (acc : A)
      → Follows (iter_blocks rounds body count acc) (iter_blocks rounds (λ _. t) count tt)
  unfolding iter_blocks
  follow_blocks zero count acc fo rest b e = cc
  follow_blocks (suc rounds) count acc fo rest b e = elim (Bool-cases (eq_ℤ count (pos 0))) [
    | inl end ↦ let e' = rw (iter_blocks, end) at e in rw (iter_blocks, end) cc
    | inr more ↦
        rw (iter_blocks, more)
          (follow_same (block_items count) _
            (λ n.
              follow_pair (repeat n body acc) _ (follow_repeat n acc)
                (λ acc'. follow_same read_long _ (λ c. follow_blocks rounds c acc')))
            fo rest b (rw (iter_blocks, more) at e))
  ]

  pub follow_iter : (acc : A) → Follows (iter_array_or_map body acc) (iter_array_or_map (λ _. t) tt)
  unfolding iter_array_or_map
  follow_iter acc =
      follow_same read_long _ (λ c fo rest b e. follow_blocks (suc (length fo)) c acc fo rest b e)

module _ (read : Read) (skip : Skip) (h : (s : Schema) → Follows (read s none) (skip s)) where
  pub follow_array : (s : Schema) → Follows (read_array read s none) (skip_array skip s)
  unfolding read_array skip_array read_item
  follow_array s =
      follow_then (iter_array_or_map (read_item read s none) nil) _
        (follow_iter (read_item read s none) (skip s)
          (λ acc. follow_then (read s none) _ (h s) (λ d mid rest a. pure-rest _ a mid rest)) nil)
        (λ items mid rest a. pure-rest _ a mid rest)

  pub follow_map : (s : Schema) → Follows (read_map read s none) (skip_map skip s)
  unfolding read_map skip_map read_pair
  follow_map s =
      follow_then (iter_array_or_map (read_pair read s none) no_entries) _
        (follow_iter (read_pair read s none) (read_utf8 decode >>= λ key. skip s)
          (λ acc.
            follow_same (read_utf8 decode) _
              (λ key. follow_then (read s none) _ (h s) (λ d mid rest a. pure-rest _ a mid rest)))
          no_entries)
        (λ es mid rest a. pure-rest _ a mid rest)

  pub follow_fields :
      (fs : Fields) (es : Entries) → Follows (read_fields read fs es) (skip_record skip fs)
  unfolding read_fields skip_record
  follow_fields no_fields es fo rest b e = cc
  follow_fields (field name s default aliases fs) es fo rest b e =
      follow_pair (read s none) _ (h s) (λ d. follow_fields fs _) fo rest b e
