-- ===== src/Container/Blocks.antt =====
-- fastavro/_read_py.py: the iterators over the records and the blocks of a file, after its header.
use fastavro.Prelude.{
  ℕ, zero, suc, ◌-◌, Option, none, some, List, [], ◌∷◌, ◌++◌, length, take, drop, if◌then◌else◌,
}
use fastavro.Python.Errors.{Error, ok, err, eof_error, value_error, out_of_rounds}
use fastavro.Python.Ints.{ℤ, pos, negsuc}
use fastavro.Python.Text.{Bytes, eq_text}
use fastavro.Python.Files.{Reader}
use fastavro.Datum.{Datum}
use fastavro.Binary.Decoder.{read_long}
use fastavro.Container.Header.{sync_size}
use fastavro.Container.Codecs.{BlockReader}

unfoldable pub skip_sync : Bytes → Reader (Unit {0})
skip_sync sync_marker fo =
    if eq_text (take sync_size fo) sync_marker then ok (tt, drop sync_size fo) else err value_error

-- What an iterator yields, and the exception that ends it.
abbrev pub Yields : Type 0 → Type 0
Yields A = List A × Option Error

abbrev pub after_all : {A : Type 0} → List A → Yields A → Yields A
after_all xs (ys, e) = (xs ++ ys, e)

-- `range(block_count)`
abbrev pub rounds_of : ℤ → ℕ
rounds_of (pos n) = n
rounds_of (negsuc n) = 0

-- `for i in range(…): yield read_data(…)`, on the bytes of one block.
unfoldable pub read_records : ℕ → Reader Datum → Bytes → Yields Datum
read_records zero read fo = ([], none)
read_records (suc n) read fo = elim (read fo) [
  | err e ↦ ([], some e)
  | ok (d, rest) ↦ after_all (d ∷ []) (read_records n read rest)
]

module _ (read_block : BlockReader) (sync_marker : Bytes) where
  -- The `while True` loop. A round reads a count, so there are fewer rounds than bytes.
  unfoldable pub iter_records : ℕ → Reader Datum → Bytes → Yields Datum
  iter_records zero read fo = ([], some out_of_rounds)
  iter_records (suc rounds) read fo = elim (read_long fo) [
    | err eof_error ↦ ([], none)
    | err e ↦ ([], some e)
    | ok (block_count, fo1) ↦ elim (read_block fo1) [
      | err e ↦ ([], some e)
      | ok (block, fo2) ↦
          let (ds, failed) = read_records (rounds_of block_count) read block in
          elim failed [
            | some e ↦ (ds, some e)
            | none ↦ elim (skip_sync sync_marker fo2) [
              | err e ↦ (ds, some e)
              | ok (u, fo3) ↦ after_all ds (iter_records rounds read fo3)
            ]
          ]
    ]
  ]

  unfoldable pub iter_avro_records : Reader Datum → Bytes → Yields Datum
  iter_avro_records read fo = iter_records (suc (length fo)) read fo

-- A block as `block_reader` yields it; its place in the file is counted from the first block.
pub record Block : Type 0 where
  pub bytes : Bytes
  pub num_records : ℤ
  pub offset : ℕ
  pub size : ℕ

module _ (read_block : BlockReader) (sync_marker : Bytes) where
  unfoldable pub iter_blocks_at : ℕ → ℕ → Bytes → Yields Block
  iter_blocks_at zero total fo = ([], some out_of_rounds)
  iter_blocks_at (suc rounds) total fo = elim (read_long fo) [
    | err eof_error ↦ ([], none)
    | err e ↦ ([], some e)
    | ok (num_records, fo1) ↦ elim (read_block fo1) [
      | err e ↦ ([], some e)
      | ok (block, fo2) ↦ elim (skip_sync sync_marker fo2) [
        | err e ↦ ([], some e)
        | ok (u, fo3) ↦
            after_all
              (record {
                bytes = block;
                num_records = num_records;
                offset = total - length fo;
                size = length fo - length fo3;
              }
                ∷ [])
              (iter_blocks_at rounds total fo3)
      ]
    ]
  ]

  unfoldable pub iter_avro_blocks : Bytes → Yields Block
  iter_avro_blocks fo = iter_blocks_at (suc (length fo)) (length fo) fo

-- `Block.__iter__`
unfoldable pub block_records : Reader Datum → Block → Yields Datum
block_records read b = read_records (rounds_of b.num_records) read b.bytes
