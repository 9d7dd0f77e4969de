-- ===== src/Write/Values.antt =====
-- fastavro/_write_py.py: the writers of fixed, enum, array and map.
use fastavro.Prelude.{ℕ, suc, List, [], ◌∷◌, ◌==◌, if◌then◌else◌}
use fastavro.Python.Errors.{Result, ok, err, bind, Written, wrote, raised, ◌>>=◌, ◌>>◌, value_error}
use fastavro.Python.Text.{Text}
use fastavro.Datum.{
  Datum, Items, Entries, nil, cons, no_entries, entry, str, len, iterate, as_dict, is_text,
}
use fastavro.Schema.{Schema}
use fastavro.Binary.Encoder.{
  write_null, write_boolean, write_int, write_float, write_double, write_bytes, write_utf8,
  write_array_start, write_item_count, end_item, write_array_end, write_map_start, write_map_end,
  write_index,
}
use fastavro.Binary.Encoder

-- `schema["symbols"].index(datum)`
unfoldable pub index_of : Datum → List Text → Result ℕ
index_of d [] = err value_error
index_of d (s ∷ ss) =
    let rest = index_of d ss in if is_text d s then ok 0 else bind rest (λ i. ok (suc i))

unfoldable pub write_fixed : Datum → ℕ → Written
write_fixed datum size = do
  n ← len datum
  if n == size then Encoder.write_fixed datum else raised value_error []

unfoldable pub write_enum : Datum → List Text → Written
write_enum datum symbols = do index ← index_of datum symbols; Encoder.write_enum index

-- `write_data` under its recursive calls.
abbrev pub Write : Type 0
Write = Datum → Schema → Written

module _ (write : Write) where
  unfoldable pub write_items : Items → Schema → Written
  write_items nil s = wrote []
  write_items (cons d ds) s = do write d s; end_item; write_items ds s

  unfoldable pub write_array : Datum → Schema → Written
  write_array datum s = do
    write_array_start
    n ← len datum
    if n == 0 then wrote [] else do write_item_count n; ds ← iterate datum; write_items ds s
    write_array_end

  unfoldable pub write_entries : Entries → Schema → Written
  write_entries no_entries s = wrote []
  write_entries (entry k d es) s = do write_utf8 (str k); write d s; write_entries es s

  unfoldable pub write_map : Datum → Schema → Written
  write_map datum s = do
    write_map_start
    n ← len datum
    if n == 0 then wrote [] else do write_item_count n; es ← as_dict datum; write_entries es s
    write_map_end
