-- ===== src/Rounds/Read.antt =====
-- The readers of fastavro/_read_py.py end, on any bytes.
use fastavro.Prelude.{ℕ, zero, suc, length, ◌≤◌, Option, none, some}
use fastavro.Python.Errors.{
  recursion_error, Result, ok, err, bind, from_option, key_error, struct_error,
}
use fastavro.Python.Errors.InRounds.{InRounds, InRounds-bind, InRounds-from_option}
use fastavro.Python.Ints.{pos}
use fastavro.Python.Text.{Bytes, decode}
use fastavro.Python.Files.{Reader, fail}
use fastavro.Datum.{Datum, Entries, nil, no_entries, set_entry}
use fastavro.Schema.{
  Schema, Schemas, Fields, Primitive, prim, ref, union, annotated, array, map, fixed, enum,
  record_schema, no_fields, field, find_schema,
}
use fastavro.Context.{ReadContext, ReadOptions}
use fastavro.Resolution.{match_types, match_schemas}
use fastavro.Read.Values.{
  schema_at, symbol_at, given, read_primitive, read_fixed, resolve_symbol, read_enum, Read, Skip,
  reader_items, reader_values, read_item, read_array, read_pair, read_map,
}
use fastavro.Read.Unions.{reader_branch, label_result, read_union}
use fastavro.Read.Records.{
  readers_field, read_fields, read_resolved, missing_defaults, reader_fields, read_record,
}
use fastavro.Read.Data.{
  skip_data, reader_named, run_reader, no_struct_error, convert, matching, finish, read_data,
}
use fastavro.Binary.Decoder.{
  read_long, read_utf8, read_index, read_boolean, read_float, read_double, read_bytes,
  iter_array_or_map,
}
use fastavro.Binary.Decoder
use fastavro.Rounds.Shrinks.{
  Bounded, Shrinks, Bounded-bind, Shrinks-bind, Shrinks-pure, fail-Bounded,
}
use fastavro.Rounds.Decoder.{
  read_index-Shrinks, read_enum-Shrinks, read_null-Shrinks, read_boolean-Shrinks, read_long-Shrinks,
  read_float-Shrinks, read_double-Shrinks, read_bytes-Shrinks, read_utf8-Shrinks,
  read_fixed-Shrinks, iter_array_or_map-Shrinks,
}
use fastavro.Rounds.Resolution.{match_types-InRounds, match_schemas-InRounds}
use fastavro.Rounds.Values.{decode-InRounds, ContextInRounds, convert-InRounds}
use fastavro.Rounds.Skip.{then_pure, schema_at-InRounds, skip_data-Shrinks}
use fastavro.Rounds.Results.{
  symbol_at-InRounds, resolve_symbol-InRounds, items-InRounds, values-InRounds,
  reader_branch-InRounds, label_result-InRounds, missing_defaults-InRounds, reader_fields-InRounds,
  reader_named-InRounds, matching-InRounds,
}

read_primitive-Shrinks :
    (options : ReadOptions)
    → ((b : Bytes) → InRounds (options.decode_with b))
    → (p : Primitive) → Shrinks (read_primitive options p)
unfolding read_primitive
read_primitive-Shrinks options h Primitive.null = read_null-Shrinks
read_primitive-Shrinks options h Primitive.boolean = then_pure read_boolean _ read_boolean-Shrinks
read_primitive-Shrinks options h Primitive.string =
    then_pure (read_utf8 options.decode_with) _ (read_utf8-Shrinks options.decode_with h)
read_primitive-Shrinks options h Primitive.int = then_pure read_long _ read_long-Shrinks
read_primitive-Shrinks options h Primitive.long = then_pure read_long _ read_long-Shrinks
read_primitive-Shrinks options h Primitive.float = then_pure read_float _ read_float-Shrinks
read_primitive-Shrinks options h Primitive.double = then_pure read_double _ read_double-Shrinks
read_primitive-Shrinks options h Primitive.bytes = then_pure read_bytes _ read_bytes-Shrinks

option-Shrinks :
    {A B : Type 0} (o : Option A) (n : Reader B) (f : A → Reader B)
    → Shrinks n
    → ((a : A) → Shrinks (f a))
    → Shrinks (elim o [ none ↦ n | some a ↦ f a ])
option-Shrinks none n f h g = h
option-Shrinks (some a) n f h g = g a

module _ (read : Read) (skip : Skip) (ih : (s : Schema) (r : Option Schema) → Shrinks (read s r))
    (jh : (s : Schema) → Shrinks (skip s)) where
  fields-Shrinks : (fs : Fields) (es : Entries) → Shrinks (read_fields read fs es)
  unfolding read_fields
  fields-Shrinks no_fields es = Shrinks-pure es
  fields-Shrinks (field name s default aliases fs) es =
      Shrinks-bind (read s none) _ (ih s none) (λ d. fields-Shrinks fs (set_entry name d es))

  resolved-Shrinks : (fs rs : Fields) (es : Entries) → Shrinks (read_resolved read skip fs rs es)
  unfolding read_resolved
  resolved-Shrinks no_fields rs es = Shrinks-pure es
  resolved-Shrinks (field name s default aliases fs) rs es =
      option-Shrinks (readers_field name rs) _ _
        (Shrinks-bind (skip s) _ (jh s) (λ u. resolved-Shrinks fs rs es))
        (λ f.
          Shrinks-bind (read s (some f.type)) _ (ih s (some f.type))
            (λ d. resolved-Shrinks fs rs (set_entry f.name d es)))

  record-Shrinks : (fs : Fields) (r : Option Schema) → Shrinks (read_record read skip fs r)
  unfolding read_record
  record-Shrinks fs none =
      then_pure (read_fields read fs no_entries) _ (fields-Shrinks fs no_entries)
  record-Shrinks fs (some r) =
      Shrinks-bind (fail (reader_fields r)) _
        (fail-Bounded (reader_fields r) (reader_fields-InRounds r))
        (λ rs.
          Shrinks-bind (read_resolved read skip fs rs no_entries) _
            (resolved-Shrinks fs rs no_entries)
            (λ es.
              then_pure (fail (missing_defaults fs rs es)) _
                (fail-Bounded (missing_defaults fs rs es) (missing_defaults-InRounds fs rs es))))

  array-Shrinks : (s : Schema) (r : Option Schema) → Shrinks (read_array read s r)
  unfolding read_array read_item
  array-Shrinks s r = then_pure (iter_array_or_map (read_item read s r) nil) _ (
      iter_array_or_map-Shrinks (read_item read s r)
        (λ items.
          Shrinks-bind (fail (reader_items (given r))) _
            (fail-Bounded (reader_items (given r)) (items-InRounds (given r)))
            (λ r'. then_pure (read s r') _ (ih s r')))
        nil)

  map-Shrinks : (s : Schema) (r : Option Schema) → Shrinks (read_map read s r)
  unfolding read_map read_pair
  map-Shrinks s r = then_pure (iter_array_or_map (read_pair read s r) no_entries) _ (
      iter_array_or_map-Shrinks (read_pair read s r)
        (λ es. Shrinks-bind (read_utf8 decode) _ (read_utf8-Shrinks decode decode-InRounds) (λ key.
          Shrinks-bind (fail (reader_values (given r))) _
            (fail-Bounded (reader_values (given r)) (values-InRounds (given r)))
            (λ r'. then_pure (read s r') _ (ih s r'))))
        no_entries)

  module _ (ctx : ReadContext) (options : ReadOptions) (depth : ℕ)
      (h : (b : Bytes) → InRounds (options.decode_with b)) where
    union-Shrinks :
        (ss : Schemas) (r : Option Schema)
        → Shrinks (read_union read (match_types ctx depth) ctx options ss r)
    unfolding read_union
    union-Shrinks ss r = Shrinks-bind read_index _ read_index-Shrinks (λ i.
        Shrinks-bind (fail (schema_at ss i)) _
          (fail-Bounded (schema_at ss i) (schema_at-InRounds ss i))
          (λ s.
            Shrinks-bind (fail (reader_branch (match_types ctx depth s) (given r))) _
              (fail-Bounded _ (
                reader_branch-InRounds (match_types ctx depth s) (match_types-InRounds ctx depth s)
                  (given r)))
              (λ (rs, branch). Shrinks-bind (read s rs) _ (ih s rs) (λ d.
                fail-Bounded (label_result ctx options ss s branch d)
                  (label_result-InRounds ctx options ss s branch d)))))

    run_reader-Shrinks :
        (s : Schema) (r : Option Schema)
        → Shrinks (run_reader read skip (match_types ctx depth) ctx options s r)
    unfolding run_reader read_fixed read_enum InRounds
    run_reader-Shrinks (prim p) r = read_primitive-Shrinks options h p
    run_reader-Shrinks (annotated p a) r = read_primitive-Shrinks options h p
    run_reader-Shrinks (fixed a name aliases size) r =
        then_pure (Decoder.read_fixed (pos size)) _ (read_fixed-Shrinks (pos size))
    run_reader-Shrinks (enum a name aliases symbols default) r =
        Shrinks-bind Decoder.read_enum _ read_enum-Shrinks (λ i.
          fail-Bounded (bind (symbol_at symbols i) (resolve_symbol (given r))) (
            InRounds-bind (symbol_at symbols i) (resolve_symbol (given r))
              (symbol_at-InRounds symbols i) (resolve_symbol-InRounds (given r))))
    run_reader-Shrinks (array a s) r = array-Shrinks s r
    run_reader-Shrinks (map a s) r = map-Shrinks s r
    run_reader-Shrinks (union ss) r = union-Shrinks ss r
    run_reader-Shrinks (record_schema a f name aliases fs) r = record-Shrinks fs r
    run_reader-Shrinks (ref name) r =
        Shrinks-bind (fail (from_option key_error (find_schema name ctx.writer))) _
          (fail-Bounded _ (InRounds-from_option key_error (find_schema name ctx.writer) tt))
          (λ s.
            Shrinks-bind (fail (reader_named ctx.reader r)) _
              (fail-Bounded (reader_named ctx.reader r) (reader_named-InRounds ctx.reader r))
              (λ r'. ih s r'))

no_struct_error-Bounded :
    {A : Type 0} (n : ℕ) (r : Result (A × Bytes)) → Bounded n r → Bounded n (no_struct_error r)
unfolding Bounded
no_struct_error-Bounded n (ok a) h = h
no_struct_error-Bounded n (err struct_error) h = tt
no_struct_error-Bounded n (err e) h = h

converted-Bounded :
    (n : ℕ) (r : Result Datum) (rest : Bytes)
    → InRounds r
    → length rest ≤ n
    → Bounded n (bind r (λ x. ok (x, rest)))
unfolding Bounded InRounds
converted-Bounded n (ok d) rest h le = le
converted-Bounded n (err e) rest h le = h

finish-Shrinks :
    (ctx : ReadContext)
    → ContextInRounds ctx
    → (s : Schema) (r : Option Schema) (reader : Reader Datum) → Shrinks reader
    → Shrinks (finish ctx s r reader)
unfolding finish
finish-Shrinks ctx c (ref name) r reader h fo = h fo
finish-Shrinks ctx c s r reader h fo =
    Bounded-bind (length fo) (no_struct_error (reader fo)) _
      (no_struct_error-Bounded (length fo) (reader fo) (h fo))
      (λ d rest le.
        converted-Bounded (length fo) (convert ctx s r d) rest (convert-InRounds ctx c s r d) le)

read_data-Shrinks :
    (depth : ℕ) (ctx : ReadContext) (options : ReadOptions) (s : Schema) (r : Option Schema)
    → ContextInRounds ctx
    → ((b : Bytes) → InRounds (options.decode_with b))
    → Shrinks (read_data depth ctx options s r)
unfolding read_data InRounds
read_data-Shrinks zero ctx options s r c h = fail-Bounded (err recursion_error) tt
read_data-Shrinks (suc depth) ctx options s r c h =
    Shrinks-bind (fail (matching (match_schemas ctx depth) s r)) _
      (fail-Bounded _
        (matching-InRounds (match_schemas ctx depth) s r (match_schemas-InRounds ctx depth)))
      (λ r'. finish-Shrinks ctx c s r' _ (
        run_reader-Shrinks (read_data depth ctx options) (skip_data depth ctx.writer)
          (λ t q. read_data-Shrinks depth ctx options t q c h) (skip_data-Shrinks depth ctx.writer)
          ctx options depth h s r'))

-- On any bytes, whatever the schemas and the options are, `read_data` does not run out of the rounds
-- that its loops are given, whatever it comes upon, and if it returns, it leaves no more bytes than
-- there were; provided that the platform's conversions, the logical readers and the decoding of texts
-- do not report that they ran out of rounds.
pub read_data-Bounded :
    (depth : ℕ) (ctx : ReadContext) (options : ReadOptions) (s : Schema) (r : Option Schema)
    (fo : Bytes)
    → ContextInRounds ctx
    → ((b : Bytes) → InRounds (options.decode_with b))
    → Bounded (length fo) (read_data depth ctx options s r fo)
read_data-Bounded depth ctx options s r fo c h = read_data-Shrinks depth ctx options s r c h fo
