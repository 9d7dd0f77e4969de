-- ===== src/Container/RoundTrip.antt =====
-- `Writer` against `_iter_avro_records`: what is written to a container file is read from it.
use fastavro.Prelude.{
  ℕ, suc, ◌+◌, ◌<◌, ◌^◌, Bool, false, Bool-cases, inl, inr, List, [], ◌∷◌, ◌++◌, ◌≡◌, refl, ap,
  subst, sym, ◌∙◌, none, Option, arith, length, length-append, append_assoc, append-nil, leb, All,
}
use fastavro.Python.Errors.{Error, ok, output}
use fastavro.Python.Files.{Reader}
use fastavro.Datum.{Datum}
use fastavro.Context.{ReadContext, default_read_options}
use fastavro.Write.Data.{write_data}
use fastavro.Read.Data.{read_data}
use fastavro.RoundTrip.Transmits.{Transmits}
use fastavro.RoundTrip.Fits.{Fits}
use fastavro.RoundTrip.Data.{transmit_data}
use fastavro.Container.Header.{sync_size}
use fastavro.Container.Codecs.{null_write_block, null_read_block}
use fastavro.Container.Writer.{
  Settings, Writer, Outcome, dump, check_record, append_record, write, dump_pending, is_pending,
  flush, write_records, fresh,
}
use fastavro.Container.Blocks.{read_records, iter_avro_records}
use fastavro.Container.Delivery.{
  all_records, HoldsRecords, no_records, one_more, Delivers, no_blocks, blocks_after, delivered,
  put_block-Delivers,
}

-- How many bytes the records take.
unfoldable pub total_size : Settings → List Datum → ℕ
total_size s [] = 0
total_size s (d ∷ ds) =
    length (output (write_data s.depth s.context s.options d s.schema)) + total_size s ds

module _ (s : Settings) (read : Reader Datum) where
  -- The file holds whole blocks and the pending block whole records, together those that were written.
  abbrev Holds : Writer → List Datum → Type 0
  Holds w ds =
      (xs ys : List Datum) × (ds ≡ xs ++ ys)
      × Delivers read s.sync_marker w.fo xs
      × HoldsRecords read w.io w.block_count ys

  -- The validator raises nothing, and the record is written and read back.
  abbrev Writable : Datum → Type 0
  Writable d =
      ((b : Bool) × (check_record s d ≡ ok b))
      × Transmits (write_data s.depth s.context s.options d s.schema) read d

  -- The pending block has room for `n` records and `size` bytes more.
  abbrev HasRoom : Writer → ℕ → ℕ → Type 0
  HasRoom w n size = (w.block_count + n < 2 ^ 63) × (length w.io + size < 2 ^ 63)

  module _ (plain : s.block_writer ≡ null_write_block)
      (sized : length s.sync_marker ≡ sync_size) where
    dump-Holds :
        (w : Writer) (ds : List Datum)
        → Holds w ds
        → w.block_count < 2 ^ 63
        → length w.io < 2 ^ 63
        → (w' : Writer) × (dump s w ≡ (w', none))
          × Holds w' ds
          × (w'.block_count ≡ 0)
          × (length w'.io ≡ 0)
          × Delivers read s.sync_marker w'.fo ds
    unfolding dump
    dump-Holds w ds (xs, ys, e, file, pending) hn hio =
        let (out, p, block) =
          put_block-Delivers s read plain sized w.io w.block_count ys pending hn hio in
        let all : Delivers read s.sync_marker (w.fo ++ out) ds =
          subst (λ (t : List Datum). Delivers read s.sync_marker (w.fo ++ out) t) (sym e)
            (blocks_after read s.sync_marker w.fo out xs ys file block) in
        (
          record { fo = w.fo ++ out; io = []; block_count = 0 },
          rw (dump, p) refl,
          (ds, [], sym (append-nil ds), all, no_records read),
          refl,
          refl,
          all,
        )

    append-Holds :
        (w : Writer) (ds : List Datum) (d : Datum)
        → Holds w ds
        → Transmits (write_data s.depth s.context s.options d s.schema) read d
        → (w' : Writer) × (append_record s w d ≡ (w', none))
          × Holds w' (ds ++ (d ∷ []))
          × (w'.block_count ≡ suc w.block_count)
          × (length w'.io ≡ length w.io + total_size s (d ∷ []))
    unfolding append_record total_size
    append-Holds w ds d (xs, ys, e, file, pending) (out, written, back) = (
      record { fo = w.fo; io = w.io ++ out; block_count = suc w.block_count },
      rw (append_record, written) refl,
      (
        xs,
        ys ++ (d ∷ []),
        ap (λ (t : List Datum). t ++ (d ∷ [])) e ∙ append_assoc xs ys (d ∷ []),
        file,
        one_more read w.io out w.block_count ys d pending back,
      ),
      refl,
      rw (total_size, written) (omega (arith, length-append w.io out)),
    )

    write-Holds :
        (w : Writer) (ds : List Datum) (d : Datum) (n size : ℕ)
        → Holds w ds
        → Writable d
        → HasRoom w (suc n) (total_size s (d ∷ []) + size)
        → (w' : Writer) × (write s w d ≡ (w', none)) × Holds w' (ds ++ (d ∷ [])) × HasRoom w' n size
    unfolding write
    write-Holds w ds d n size held ((b, valid), back) (hn, hs) =
        let (w1, e, held1, n1, s1) = append-Holds w ds d held back in
        elim (Bool-cases (leb s.sync_interval (length w1.io))) [
          | inl full ↦
              let (w2, e2, held2, n2, io2, all) =
                dump-Holds w1 (ds ++ (d ∷ [])) held1 (omega arith) (omega arith) in
              (w2, rw (write, valid, e) (rw full e2), held2, (omega arith, omega arith))
          | inr not_full ↦
              (w1, rw (write, valid, e) (rw not_full refl), held1, (omega arith, omega arith))
        ]

    nothing_pending : (w : Writer) → is_pending w ≡ false → w.block_count ≡ 0
    nothing_pending w e = ground arith

    flush-Holds :
        (w : Writer) (ds : List Datum)
        → Holds w ds
        → HasRoom w 0 0
        → (w' : Writer) × (flush s w ≡ (w', none)) × Delivers read s.sync_marker w'.fo ds
    unfolding flush dump_pending read_records
    flush-Holds w ds (xs, ys, e, file, pending) (hn, hs) = elim (Bool-cases (is_pending w)) [
      | inl more ↦
          let (w', p, held, n, io, all) =
            dump-Holds w ds (xs, ys, e, file, pending) (omega arith) (omega arith) in
          (w', rw (flush, dump_pending, more) p, all)
      | inr idle ↦
          let none_left : [] ≡ ys =
            ap (λ (y : List Datum × Option Error). y.0)
              (rw (nothing_pending w idle) at (all_records read w.io w.block_count ys pending)) in
          let same : xs ≡ ds =
            sym (append-nil xs) ∙ ap (λ (t : List Datum). xs ++ t) none_left ∙ sym e in
          (
            w,
            rw (flush, dump_pending, idle) refl,
            subst (λ (t : List Datum). Delivers read s.sync_marker w.fo t) same file,
          )
    ]

    write_records-Delivers :
        (w : Writer) (ds records : List Datum)
        → Holds w ds
        → All Writable records
        → HasRoom w (length records) (total_size s records)
        → (w' : Writer) × (write_records s w records ≡ (w', none))
          × Delivers read s.sync_marker w'.fo (ds ++ records)
    unfolding write_records total_size
    write_records-Delivers w ds [] held h (hn, hs) =
        let (w', e, all) = flush-Holds w ds held (hn, hs) in
        (
          w',
          e,
          subst (λ (t : List Datum). Delivers read s.sync_marker w'.fo t) (sym (append-nil ds)) all,
        )
    write_records-Delivers w ds (d ∷ records) held (hd, h) (hn, hs) =
        let (w1, e, held1, room) =
          write-Holds w ds d (length records) (total_size s records) held hd (hn, omega arith) in
        let (w2, e2, all) = write_records-Delivers w1 (ds ++ (d ∷ [])) records held1 h room in
        (
          w2,
          rw (write_records, e) e2,
          subst (λ (t : List Datum). Delivers read s.sync_marker w2.fo t)
              (append_assoc ds (d ∷ []) records) all,
        )

-- A record fits the schema, and a validator, if there is one, raises nothing.
abbrev pub IsWritable : Settings → Datum → Type 0
IsWritable s d =
    ((b : Bool) × (check_record s d ≡ ok b)) × Fits s.depth s.context s.options d s.schema

-- Records that fit the schema (`Fits`, so with no logical type on the way) and that the validator, if
-- there is one, raises nothing about are written and flushed without an
-- exception, wherever the sync interval ends a block, and the iterator over the file's records yields
-- just these records in their order and ends without an exception. The codec is "null", the mark has
-- its 16 bytes, the reader knows the writer's names, and there are fewer than 2 ^ 63 records and bytes.
pub iter_avro_records-write_records :
    (s : Settings) (rctx : ReadContext) (records : List Datum)
    → s.block_writer ≡ null_write_block
    → length s.sync_marker ≡ sync_size
    → rctx.writer ≡ s.context.named_schemas
    → All (IsWritable s) records
    → length records < 2 ^ 63
    → total_size s records < 2 ^ 63
    → ((write_records s fresh records).1 ≡ none)
      × (iter_avro_records null_read_block s.sync_marker
            (read_data s.depth rctx default_read_options s.schema none)
            (write_records s fresh records).0.fo
          ≡ (records, none))
iter_avro_records-write_records s rctx records plain sized same h hn hs =
    let read = read_data s.depth rctx default_read_options s.schema none in
    let (w, e, all) =
      write_records-Delivers s read plain sized fresh [] records
        ([], [], refl, no_blocks read s.sync_marker, no_records read) (all_writable records h)
        (omega arith, omega arith) in
    (
      ap (λ (o : Outcome). o.1) e,
      ap (λ (o : Outcome). iter_avro_records null_read_block s.sync_marker read o.0.fo) e
          ∙ delivered read s.sync_marker w.fo records all,
    )
  where
    all_writable :
        (ds : List Datum)
        → All (IsWritable s) ds
        → All (Writable s (read_data s.depth rctx default_read_options s.schema none)) ds
    all_writable [] h = tt
    all_writable (d ∷ ds) ((valid, fits), h) = (
      (valid, transmit_data s.depth s.context s.options rctx same d s.schema fits),
      all_writable ds h,
    )
