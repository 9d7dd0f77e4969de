-- ===== src/Container/Delivery.antt =====
-- What bytes deliver: records inside a block, and blocks of records on a file.
use fastavro.Prelude.{
  ℕ, zero, suc, ◌+◌, ◌<◌, ◌^◌, List, [], ◌∷◌, ◌++◌, ◌≡◌, refl, ap, sym, ◌∙◌, none, arith, length,
  length-append, append_assoc, append-nil, take_front, drop_front,
}
use fastavro.Python.Errors.{ok, wrote}
use fastavro.Python.Ints.{pos}
use fastavro.Python.Text.{Bytes}
use fastavro.Python.Files.{Reader}
use fastavro.Datum.{Datum}
use fastavro.Binary.Encoder.{write_bytes, write_raw}
use fastavro.Binary.Decoder.{read_bytes, read_long}
use fastavro.RoundTrip.Primitives.{transmit_long, transmit_bytes}
use fastavro.RoundTrip.Containers.{eq_text_refl}
use fastavro.Container.Header.{sync_size}
use fastavro.Container.Codecs.{null_write_block, null_read_block, write_sized}
use fastavro.Container.Writer.{Settings, put_block}
use fastavro.Container.Blocks.{
  Yields, after_all, skip_sync, read_records, iter_records, iter_avro_records,
}

after_both :
    {A : Type 0} (xs ys : List A) (y : Yields A)
    → after_all xs (after_all ys y) ≡ after_all (xs ++ ys) y
after_both xs ys (zs, e) = ap (λ t. (t, e)) (sym (append_assoc xs ys zs))

module _ (read : Reader Datum) where
  -- In a block these bytes are `n` records, whatever follows.
  abbrev pub HoldsRecords : Bytes → ℕ → List Datum → Type 0
  HoldsRecords io n ds =
      (m : ℕ) (rest : Bytes)
      → read_records (n + m) read (io ++ rest) ≡ after_all ds (read_records m read rest)

  pub no_records : HoldsRecords [] 0 []
  no_records m rest = let e : 0 + m ≡ m = omega arith in rw e refl

  pub one_more :
      (io out : Bytes) (n : ℕ) (ds : List Datum) (d : Datum)
      → HoldsRecords io n ds
      → ((rest : Bytes) → read (out ++ rest) ≡ ok (d, rest))
      → HoldsRecords (io ++ out) (suc n) (ds ++ (d ∷ []))
  unfolding read_records
  one_more io out n ds d h r m rest =
      let e : suc n + m ≡ n + suc m = omega arith in
      let step : read_records (suc m) read (out ++ rest)
          ≡ after_all (d ∷ []) (read_records m read rest) =
        rw (read_records, r rest) refl in
      rw (append_assoc io out rest, e)
        (h (suc m) (out ++ rest)
          ∙ ap (after_all ds) step
          ∙ after_both ds (d ∷ []) (read_records m read rest))

  pub all_records :
      (io : Bytes) (n : ℕ) (ds : List Datum)
      → HoldsRecords io n ds
      → read_records n read io ≡ (ds, none)
  unfolding read_records
  all_records io n ds h =
      let e : n + 0 ≡ n = omega arith in
      (rw (e, append-nil io) at (h 0 [])) ∙ ap (λ (t : List Datum). (t, none)) (append-nil ds)

module _ (read : Reader Datum) (marker : Bytes) where
  -- On a file these bytes are whole blocks with those records, whatever follows.
  abbrev pub Delivers : Bytes → List Datum → Type 0
  Delivers out ds =
      (rest : Bytes) (rounds : ℕ)
      → length (out ++ rest) < rounds
      → (k : ℕ) × (length rest < k)
        × (iter_records null_read_block marker rounds read (out ++ rest)
            ≡ after_all ds (iter_records null_read_block marker k read rest))

  pub no_blocks : Delivers [] []
  no_blocks rest rounds h = (rounds, h, refl)

  pub blocks_after :
      (a b : Bytes) (xs ys : List Datum)
      → Delivers a xs
      → Delivers b ys
      → Delivers (a ++ b) (xs ++ ys)
  blocks_after a b xs ys p q rest rounds h =
      let h' : length (a ++ (b ++ rest)) < rounds = rw (append_assoc a b rest) at h in
      let (k, l, e) = p (b ++ rest) rounds h' in
      let (k', l', e') = q rest k l in
      (
        k',
        l',
        ap (iter_records null_read_block marker rounds read) (append_assoc a b rest)
            ∙ e
            ∙ ap (after_all xs) e'
            ∙ after_both xs ys (iter_records null_read_block marker k' read rest),
      )

  iter_records-end : (k : ℕ) → 0 < k → iter_records null_read_block marker k read [] ≡ ([], none)
  unfolding iter_records read_long
  iter_records-end zero h = absurd (omega arith)
  iter_records-end (suc k) h = refl

  pub delivered :
      (out : Bytes) (ds : List Datum)
      → Delivers out ds
      → iter_avro_records null_read_block marker read out ≡ (ds, none)
  unfolding iter_avro_records
  delivered out ds h =
      let (k, l, e) = h [] (suc (length out)) (rw (append-nil out) (omega arith)) in
      (rw (append-nil out) at e)
      ∙ ap (after_all ds) (iter_records-end k l)
      ∙ ap (λ (t : List Datum). (t, none)) (append-nil ds)

skip_sync-marker :
    (marker rest : Bytes)
    → length marker ≡ sync_size
    → skip_sync marker (marker ++ rest) ≡ ok (tt, rest)
unfolding skip_sync
skip_sync-marker marker rest h =
    rw (take_front marker rest sync_size h, drop_front marker rest sync_size h, eq_text_refl marker)
      refl

block-Delivers :
    (read : Reader Datum) (marker a b io : Bytes) (n : ℕ) (ds : List Datum)
    → length marker ≡ sync_size
    → ((rest : Bytes) → read_long (a ++ rest) ≡ ok (pos n, rest))
    → ((rest : Bytes) → read_bytes (b ++ rest) ≡ ok (io, rest))
    → read_records n read io ≡ (ds, none)
    → Delivers read marker (a ++ (b ++ marker)) ds
unfolding iter_records null_read_block
block-Delivers read marker a b io n ds sized ra rb held rest zero h = absurd (omega arith)
block-Delivers read marker a b io n ds sized ra rb held rest (suc rounds) h = (
  rounds,
  omega (
    arith,
    length-append (a ++ (b ++ marker)) rest,
    length-append a (b ++ marker),
    length-append b marker,
    sized,
    h,
  ),
  rw (append_assoc a (b ++ marker) rest, append_assoc b marker rest)
      (rw (iter_records, ra (b ++ (marker ++ rest)))
        (rw (null_read_block, rb (marker ++ rest))
          (rw (held, skip_sync-marker marker rest sized)
            (ap
              (λ (y : Yields Datum).
                after_all y.0 (iter_records null_read_block marker rounds read rest))
              held)))),
)

module _ (s : Settings) (read : Reader Datum) (plain : s.block_writer ≡ null_write_block)
    (sized : length s.sync_marker ≡ sync_size) where
  -- A block that is put on the file delivers the records that its bytes hold.
  pub put_block-Delivers :
      (io : Bytes) (n : ℕ) (ds : List Datum)
      → HoldsRecords read io n ds
      → n < 2 ^ 63
      → length io < 2 ^ 63
      → (out : Bytes) × (put_block s n io ≡ wrote out) × Delivers read s.sync_marker out ds
  unfolding put_block null_write_block write_sized write_raw write_bytes
  put_block-Delivers io n ds held hn hio =
      let (a, ea, ra) = transmit_long (pos n) (hn, omega arith) in
      let (b, eb, rb) = transmit_bytes io hio in
      (
        a ++ (b ++ s.sync_marker),
        rw (plain, ea) (rw (null_write_block, eb) refl),
        block-Delivers read s.sync_marker a b io n ds sized ra rb (all_records read io n ds held),
      )
