-- ===== src/Container/HeaderRoundTrip.antt =====
-- What `write_header` writes, `_read_header` reads (fastavro/_write_py.py, fastavro/_read_py.py).
use fastavro.Prelude.{
  ℕ, suc, ◌<◌, ◌^◌, [], ◌∷◌, ◌++◌, List, length, All, ◌≡◌, refl, ap, subst, arith,
}
use fastavro.Python.Errors.{ok, bind-eq_ok, wrote, output}
use fastavro.Python.Text.{eq_text, Text, Bytes, text, encode}
use fastavro.Datum.{Datum, Entries, Platform, no_entries, entry, bytes, dict, count_entries}
use fastavro.Schema.{Primitive, prim, extract_logical_type}
use fastavro.Context.{
  WriteContext, ReadContext, LogicalWriters, default_write_options, default_read_options,
}
use fastavro.RoundTrip.Primitives.{FitsPrimitive}
use fastavro.RoundTrip.Containers.{IsDict}
use fastavro.RoundTrip.Collections.{AllEntries, IsWritable}
use fastavro.RoundTrip.Fits.{Fits}
use fastavro.RoundTrip.Data.{read_data-write_data}
use fastavro.Container.Header.{
  magic, header_schema, encoded_metadata, header, write_header, read_header,
}

-- Keys and values that can be written.
abbrev pub IsMetadata : List (Text × Text) → Type 0
IsMetadata metadata = All (λ (kv : Text × Text). IsWritable kv.0 × IsWritable kv.1) metadata

metadata-AllEntries :
    (depth : ℕ) (ctx : WriteContext) (metadata : List (Text × Text)) (meta : Entries)
    → IsMetadata metadata
    → encoded_metadata metadata ≡ ok meta
    → AllEntries (Fits (suc depth) ctx default_write_options) meta (prim Primitive.bytes)
      × (count_entries meta ≡ length metadata)
unfolding encoded_metadata extract_logical_type
metadata-AllEntries depth ctx [] meta h e =
    let none : no_entries ≡ meta = cc in
    subst
      (λ m.
        AllEntries (Fits (suc depth) ctx default_write_options) m (prim Primitive.bytes)
        × (count_entries m ≡ 0))
      none (tt, refl)
metadata-AllEntries depth ctx ((key, value) ∷ more) meta ((k, (chars, (b, encoded, short))), h) e =
    let (c, first, rest) = bind-eq_ok (encode value) _ meta e in
    let (es, second, whole) = bind-eq_ok (encoded_metadata more) _ meta rest in
    let (fits, count) = metadata-AllEntries depth ctx more es h second in
    let same : entry key (bytes c) es ≡ meta = cc in
    let size : b ≡ c = cc in
    subst
      (λ m.
        AllEntries (Fits (suc depth) ctx default_write_options) m (prim Primitive.bytes)
        × (count_entries m ≡ suc (length more)))
      same
      (
        (k, (refl, FitsPrimitive.bytes c (subst (λ x. length x < 2 ^ 63) size short)), fits),
        ap suc count,
      )

abbrev pub header_datum : Bytes → Entries → Datum
header_datum sync_marker meta = dict (
    entry (text "magic") (bytes magic)
      (entry (text "meta") (dict meta) (entry (text "sync") (bytes sync_marker) no_entries)))

header-Fits :
    (depth : ℕ) (ctx : WriteContext) (sync_marker : Bytes) (metadata : List (Text × Text))
    (meta : Entries)
    → length sync_marker ≡ 16
    → IsMetadata metadata
    → encoded_metadata metadata ≡ ok meta
    → IsDict meta
    → length metadata < 2 ^ 63
    → Fits
        (suc (suc (suc depth)))
        ctx
        default_write_options
        (header_datum sync_marker meta)
        header_schema
unfolding extract_logical_type eq_text
header-Fits depth ctx sync_marker metadata meta size h e unique few =
    let (fits, count) = metadata-AllEntries depth ctx metadata meta h e in
    (
      refl,
      (
        _,
        refl,
        (refl, (refl, (refl, tt))),
        (
          refl,
          (λ e. cc),
          (refl, (magic, refl, refl)),
          (
            refl,
            (λ e. cc),
            (refl, (meta, refl, omega (arith, count, few), unique, fits)),
            (refl, (λ e. cc), (refl, (sync_marker, refl, size)), tt),
          ),
        ),
      ),
    )

-- If the keys and the values of the metadata can be encoded in less than 2^63 bytes, no key is there
-- twice, there are less than 2^63 of them, and the sync marker has 16 bytes, then the header is written
-- without an exception, and is read back as it was, with everything that follows it left over.
pub read_header-write_header :
    (depth : ℕ) (table : LogicalWriters) (py : Platform) (rctx : ReadContext)
    (metadata : List (Text × Text)) (meta : Entries) (sync_marker rest : Bytes)
    → length sync_marker ≡ 16
    → IsMetadata metadata
    → encoded_metadata metadata ≡ ok meta
    → IsDict meta
    → length metadata < 2 ^ 63
    → rctx.writer ≡ []
    → (write_header (suc (suc (suc depth))) table py metadata sync_marker
        ≡ wrote (output (write_header (suc (suc (suc depth))) table py metadata sync_marker)))
      × (read_header
            (suc (suc (suc depth)))
            rctx
            default_read_options
            (output (write_header (suc (suc (suc depth))) table py metadata sync_marker) ++ rest)
          ≡ ok (header_datum sync_marker meta, rest))
unfolding write_header read_header header
read_header-write_header depth table py rctx metadata meta sync_marker rest size h e unique few
      same =
    let ctx : WriteContext = record {
      named_schemas = [];
      logical_writers = table;
      platform = py;
    } in
    let (writes, reads) =
      read_data-write_data (suc (suc (suc depth))) ctx default_write_options rctx
        (header_datum sync_marker meta) header_schema rest same
        (header-Fits depth ctx sync_marker metadata meta size h e unique few) in
    rw (write_header, e) (writes, rw (read_header, reads) refl)
