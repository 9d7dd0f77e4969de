-- ===== src/RoundTrip/Collections.antt =====
-- Arrays and maps: every item is read back, in its order and under its key.
use fastavro.Prelude.{◌^◌, ◌<◌, [], ◌≡◌, ◌≢◌, refl, ap, ◌∙◌, sym, arith, length, All, none, subst}
use fastavro.Python.Errors.{ok, ◌>>◌}
use fastavro.Python.Ints.{pos}
use fastavro.Python.Text.{Text, Bytes, encode, decode, IsChar}
use fastavro.Python.Files.{Reader, ◌>>=◌}
use fastavro.Datum.{
  Datum, Items, Entries, nil, cons, no_entries, entry, list, dict, str, count_items, count_entries,
  append_item, set_entry,
}
use fastavro.Schema.{Schema}
use fastavro.Binary.Encoder.{
  write_array_start, write_array_end, write_map_start, write_map_end, end_item, write_utf8,
  write_long,
}
use fastavro.Binary.Decoder.{repeat, iter_array_or_map, read_utf8}
use fastavro.Write.Values.{Write, write_items, write_array, write_entries, write_map}
use fastavro.Read.Values.{Read, read_item, read_array, read_pair, read_map}
use fastavro.RoundTrip.Transmits.{
  Transmits, nothing_before, then_assoc, transmit_then, transmit_pair, transmit_writer,
}
use fastavro.RoundTrip.Primitives.{transmit_text}
use fastavro.RoundTrip.Blocks.{transmit_empty, transmit_block, ne_zero}
use fastavro.RoundTrip.Containers.{
  append_items, append_items-append_item, append_items-nil, append_entries, append_entries_assoc,
  append_entries-no_entries, IsDict, get-before, set_entry-fresh,
}

-- A text that is written as a key or as a value.
abbrev pub IsWritable : Text → Type 0
IsWritable s = All IsChar s × ((b : Bytes) × (encode s ≡ ok b) × (length b < 2 ^ 63))

abbrev pub AllItems : (Datum → Schema → Type 0) → Items → Schema → Type 0
AllItems fits nil s = Unit {0}
AllItems fits (cons d ds) s = fits d s × AllItems fits ds s

abbrev pub AllEntries : (Datum → Schema → Type 0) → Entries → Schema → Type 0
AllEntries fits no_entries s = Unit {0}
AllEntries fits (entry k d es) s = IsWritable k × fits d s × AllEntries fits es s

module _ (write : Write) (read : Read) (fits : Datum → Schema → Type 0) where
  module _
      (transmits : (d : Datum) (s : Schema)
        → fits d s
        → Transmits (write d s) (read s none) d) where
    transmit_item :
        (d : Datum) (acc : Items) (s : Schema)
        → fits d s
        → Transmits (write d s) (read_item read s none acc) (append_item acc d)
    unfolding read_item
    transmit_item d acc s h = transmit_then (read s none) _ (transmits d s h) (λ rest. refl)

    transmit_items :
        (ds acc : Items) (s : Schema)
        → AllItems fits ds s
        → Transmits
            (write_items write ds s)
            (repeat (count_items ds) (read_item read s none) acc)
            (append_items acc ds)
    unfolding write_items repeat end_item
    transmit_items nil acc s h =
        ([], refl, λ rest. ap (λ (xs : Items). ok (xs, rest)) (sym (append_items-nil acc)))
    transmit_items (cons d ds) acc s (hd, hs) =
        transmit_pair (read_item read s none acc) _ (transmit_item d acc s hd) (
          subst (Transmits (end_item >> write_items write ds s) rest_read)
            (append_items-append_item acc d ds)
            (transmit_writer rest_read (nothing_before (write_items write ds s))
              (transmit_items ds (append_item acc d) s hs)))
      where
        rest_read : Reader Items
        rest_read = repeat (count_items ds) (read_item read s none) (append_item acc d)

    transmit_entry :
        (k : Text) (d : Datum) (acc : Entries) (s : Schema)
        → IsWritable k
        → fits d s
        → Transmits
            (write_utf8 (str k) >> write d s)
            (read_pair read s none acc)
            (set_entry k d acc)
    unfolding read_pair
    transmit_entry k d acc s (hk, (b, e, hb)) h =
        transmit_pair (read_utf8 decode) _ (transmit_text k b hk e hb)
          (transmit_then (read s none) _ (transmits d s h) (λ rest. refl))

    transmit_entries :
        (es acc : Entries) (s : Schema)
        → IsDict (append_entries acc es)
        → AllEntries fits es s
        → Transmits
            (write_entries write es s)
            (repeat (count_entries es) (read_pair read s none) acc)
            (append_entries acc es)
    unfolding write_entries repeat
    transmit_entries no_entries acc s hd h = (
      [],
      refl,
      λ rest. ap (λ (xs : Entries). ok (xs, rest)) (sym (append_entries-no_entries acc)),
    )
    transmit_entries (entry k d es) acc s hd (hk, h, hs) =
        transmit_writer all_read
          (then_assoc (write_utf8 (str k)) (write d s) (write_entries write es s))
          (transmit_pair (read_pair read s none acc) _ (transmit_entry k d acc s hk h) (
            subst
              (λ (acc' : Entries).
                Transmits (write_entries write es s) (rest_read acc')
                  (append_entries acc (entry k d es)))
              (sym (set_entry-fresh k d acc (get-before acc k d es hd)))
              (subst (Transmits (write_entries write es s) (rest_read longer))
                (append_entries_assoc acc (entry k d no_entries) es)
                (transmit_entries es longer s
                  (subst IsDict (sym (append_entries_assoc acc (entry k d no_entries) es)) hd)
                  hs))))
      where
        longer : Entries
        longer = append_entries acc (entry k d no_entries)

        rest_read : Entries → Reader Entries
        rest_read = repeat (count_entries es) (read_pair read s none)

        all_read : Reader Entries
        all_read = read_pair read s none acc >>= rest_read

    -- An array whose items fit, fewer than 2 ^ 63 of them.
    pub transmit_array :
        (ds : Items) (s : Schema)
        → count_items ds < 2 ^ 63
        → AllItems fits ds s
        → Transmits (write_array write (list ds) s) (read_array read s none) (list ds)
    unfolding write_array read_array write_array_start write_array_end
    transmit_array nil s hn h =
        let body = read_item read s none in
        transmit_writer (read_array read s none)
          (nothing_before _ ∙ nothing_before (write_long (pos 0)))
          (transmit_then (iter_array_or_map body nil) _ (transmit_empty body nil) (λ rest. refl))
    transmit_array (cons d ds) s hn h =
        let body = read_item read s none in
        let n = count_items (cons d ds) in
        let positive : n ≢ 0 = omega arith in
        transmit_writer (read_array read s none) (rw (ne_zero n positive) (nothing_before _)) (
          transmit_then (iter_array_or_map body nil) _
            (transmit_block body n nil (cons d ds) (write_items write (cons d ds) s) positive hn
              (transmit_items (cons d ds) nil s h))
            (λ rest. refl))

    -- A map of texts that UTF-8 can carry to values that fit.
    pub transmit_map :
        (es : Entries) (s : Schema)
        → count_entries es < 2 ^ 63
        → IsDict es
        → AllEntries fits es s
        → Transmits (write_map write (dict es) s) (read_map read s none) (dict es)
    unfolding write_map read_map write_map_start write_map_end
    transmit_map no_entries s hn hd h =
        let body = read_pair read s none in
        transmit_writer (read_map read s none)
          (nothing_before _ ∙ nothing_before (write_long (pos 0)))
          (transmit_then (iter_array_or_map body no_entries) _ (transmit_empty body no_entries)
            (λ rest. refl))
    transmit_map (entry k d es) s hn hd h =
        let body = read_pair read s none in
        let n = count_entries (entry k d es) in
        let positive : n ≢ 0 = omega arith in
        transmit_writer (read_map read s none) (rw (ne_zero n positive) (nothing_before _)) (
          transmit_then (iter_array_or_map body no_entries) _
            (transmit_block body n no_entries (entry k d es) (write_entries write (entry k d es) s)
              positive hn (transmit_entries (entry k d es) no_entries s hd h))
            (λ rest. refl))
