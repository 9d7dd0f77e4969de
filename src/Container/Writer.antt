-- ===== src/Container/Writer.antt =====
-- fastavro/_write_py.py: `Writer`, after its header is on the file.
use fastavro.Prelude.{
  ℕ, suc, Bool, true, Option, none, some, List, [], ◌∷◌, ◌++◌, leb, ltb, ◌||◌, length,
  if◌then◌else◌,
}
use fastavro.Python.Errors.{Result, Error, ok, err, Written, wrote, raised, ◌>>◌}
use fastavro.Python.Ints.{ℤ, pos}
use fastavro.Python.Text.{Bytes}
use fastavro.Datum.{Datum, bytes}
use fastavro.Schema.{Schema}
use fastavro.Context.{WriteContext, WriteOptions}
use fastavro.Validation.{validate}
use fastavro.Binary.Encoder.{write_long, write_raw}
use fastavro.Write.Data.{write_data}
use fastavro.Container.Codecs.{BlockWriter}

-- What `__init__` fixes; `depth` is the depth of calls that Python has left.
pub record Settings : Type 0 where
  pub schema : Schema
  pub context : WriteContext
  pub options : WriteOptions
  pub has_validator : Bool
  pub block_writer : BlockWriter
  pub compression_level : Option ℤ
  pub sync_interval : ℕ
  pub sync_marker : Bytes
  pub depth : ℕ

-- The bytes on the file, the bytes of the pending block in `self.io`, and its number of records.
pub record Writer : Type 0 where
  pub fo : Bytes
  pub io : Bytes
  pub block_count : ℕ

-- The writer after a call, and the exception that the call ended with.
abbrev pub Outcome : Type 0
Outcome = Writer × Option Error

-- A block on the file: the number of records, their bytes and the mark.
unfoldable pub put_block : Settings → ℕ → Bytes → Written
put_block s count block = do
  write_long (pos count)
  s.block_writer block s.compression_level
  write_raw (bytes s.sync_marker)

unfoldable pub dump : Settings → Writer → Outcome
dump s w = elim (put_block s w.block_count w.io) [
  | wrote out ↦ (record { fo = w.fo ++ out; io = []; block_count = 0 }, none)
  | raised e out ↦ (record { fo = w.fo ++ out; io = w.io; block_count = w.block_count }, some e)
]

-- `self.validate_fn(record, self.schema, self._named_schemas, "", True, self.options)`
unfoldable pub check_record : Settings → Datum → Result Bool
check_record s datum =
    if s.has_validator
    then validate s.depth s.context s.options true [] (some datum) s.schema
    else ok true

-- What an exception of `write_data` has left in the pending block stays there.
unfoldable pub append_record : Settings → Writer → Datum → Outcome
append_record s w datum = elim (write_data s.depth s.context s.options datum s.schema) [
  | wrote out ↦ (record { fo = w.fo; io = w.io ++ out; block_count = suc w.block_count }, none)
  | raised e out ↦ (record { fo = w.fo; io = w.io ++ out; block_count = w.block_count }, some e)
]

abbrev pub then_do : Outcome → (Writer → Outcome) → Outcome
then_do (w, none) f = f w
then_do (w, some e) f = (w, some e)

unfoldable pub write : Settings → Writer → Datum → Outcome
write s w datum = elim (check_record s datum) [
  | err e ↦ (w, some e)
  | ok valid ↦
      then_do (append_record s w datum)
        (λ w'. if leb s.sync_interval (length w'.io) then dump s w' else (w', none))
]

abbrev pub is_pending : Writer → Bool
is_pending w = ltb 0 (length w.io) || ltb 0 w.block_count

unfoldable pub dump_pending : Settings → Writer → Outcome
dump_pending s w = if is_pending w then dump s w else (w, none)

-- A block that was read elsewhere, by its number of records and its bytes.
unfoldable pub write_block : Settings → Writer → ℕ → Bytes → Outcome
write_block s w num_records block = then_do (dump_pending s w) (λ w'.
    elim (put_block s num_records block) [
      | wrote out ↦ (record { fo = w'.fo ++ out; io = w'.io; block_count = w'.block_count }, none)
      | raised e out ↦
          (record { fo = w'.fo ++ out; io = w'.io; block_count = w'.block_count }, some e)
    ])

unfoldable pub flush : Settings → Writer → Outcome
flush s w = dump_pending s w

-- The loop of `writer`: every record in turn, and a flush at the end.
unfoldable pub write_records : Settings → Writer → List Datum → Outcome
write_records s w [] = flush s w
write_records s w (d ∷ ds) = then_do (write s w d) (λ w'. write_records s w' ds)

-- A writer whose header is on the file, counting from there.
abbrev pub fresh : Writer
fresh = record { fo = []; io = []; block_count = 0 }
