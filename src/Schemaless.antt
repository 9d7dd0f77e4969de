-- ===== src/Schemaless.antt =====
-- Single records without a header: `schemaless_writer` of fastavro/_write_py.py and `schemaless_reader` of
-- fastavro/_read_py.py; `validate` of fastavro/_validation_py.py is `validate_datum`. Each parses its schema first.
pub mod Delivery
use fastavro.Prelude.{
  ℕ, Bool, true, false, not, ◌&&◌, List, [], ◌∷◌, ◌==◌, if◌then◌else◌, Option, none, some,
}
use fastavro.Python.Errors.{Result, ok, err, bind, Written, ◌>>=◌}
use fastavro.Python.Ints.{ℤ, pos, eq_ℤ}
use fastavro.Python.Text.{Text, Bytes, eq_text}
use fastavro.Datum.{
  Datum, Items, Entries, Platform, null, boolean, int, float, str, bytes, list, tuple, dict, object,
  nil, cons, no_entries, entry, get, count_entries, is_truthy,
}
use fastavro.Schema.{Schema, NamedSchemas}
use fastavro.Context.{
  WriteContext, WriteOptions, ReadContext, ReadOptions, LogicalWriters, LogicalReaders,
}
use fastavro.Validation.{validate}
use fastavro.Write.Data.{write_data}
use fastavro.Read.Data.{read_data}
use fastavro.Parsing.Kinds.{Settings}
use fastavro.Parsing.Parse.{parse_schema}

-- `parse_schema(schema, named_schemas)` with an empty dictionary and no other argument.
unfoldable pub parsed : ℕ → Platform → Datum → Result (Schema × NamedSchemas)
parsed depth py schema =
    let cfg : Settings = record { platform = py; expand = false; ignore_default_error = false } in
    parse_schema depth false cfg schema []

abbrev pub write_context : LogicalWriters → Platform → NamedSchemas → WriteContext
write_context table py named = record {
  named_schemas = named;
  logical_writers = table;
  platform = py;
}

unfoldable pub schemaless_writer :
    ℕ → LogicalWriters → Platform → WriteOptions → Datum → Datum → Written
unfolding parsed
schemaless_writer depth table py options schema datum =
    parsed depth py schema >>= λ r. write_data depth (write_context table py r.1) options datum r.0

-- `writer_schema == reader_schema`, for values that JSON has: dictionaries are equal in any order.
-- A boolean equals 0 or 1; a number with a fraction equals no integer here.
unfoldable mutual
  pub eq_datum : Datum → Datum → Bool
  eq_datum null null = true
  eq_datum (boolean a) (boolean b) = if a then b else not b
  eq_datum (boolean a) (int n) = eq_ℤ (pos (if a then 1 else 0)) n
  eq_datum (int n) (boolean a) = eq_ℤ n (pos (if a then 1 else 0))
  eq_datum (int m) (int n) = eq_ℤ m n
  eq_datum (float x) (float y) = x == y
  eq_datum (str s) (str t) = eq_text s t
  eq_datum (list xs) (list ys) = eq_items xs ys
  eq_datum (dict es) (dict fs) = (count_entries es == count_entries fs) && eq_entries es fs
  eq_datum x y = false

  pub eq_items : Items → Items → Bool
  eq_items nil nil = true
  eq_items (cons x xs) (cons y ys) = eq_datum x y && eq_items xs ys
  eq_items xs ys = false

  pub eq_entries : Entries → Entries → Bool
  eq_entries no_entries fs = true
  eq_entries (entry k d es) fs =
      let rest = eq_entries es fs in
      elim (get k fs) [ none ↦ false | some e ↦ eq_datum d e && rest ]

-- The reader's schema, if it is given, not empty and not the writer's.
unfoldable pub other_schema : Datum → Option Datum → Option Datum
unfolding eq_datum
other_schema w none = none
other_schema w (some r) = if eq_datum w r then none else if is_truthy r then some r else none

unfoldable pub parsed_reader : ℕ → Platform → Option Datum → Result (Option Schema × NamedSchemas)
unfolding parsed
parsed_reader depth py none = ok (none, [])
parsed_reader depth py (some r) = bind (parsed depth py r) (λ (s, named). ok (some s, named))

abbrev pub read_context : LogicalReaders → Platform → NamedSchemas → NamedSchemas → ReadContext
read_context table py writer reader = record {
  writer = writer;
  reader = reader;
  logical_readers = table;
  platform = py;
}

unfoldable pub schemaless_reader :
    ℕ
    → LogicalReaders
    → Platform
    → ReadOptions
    → Datum
    → Option Datum
    → Bytes
    → Result (Datum × Bytes)
unfolding parsed_reader other_schema
schemaless_reader depth table py options w r fo = bind (parsed depth py w) (λ (s, writer).
    bind (parsed_reader depth py (other_schema w r))
      (λ (rs, reader). read_data depth (read_context table py writer reader) options s rs fo))

unfoldable pub validate_datum :
    ℕ → LogicalWriters → Platform → WriteOptions → Bool → Text → Datum → Datum → Result Bool
unfolding parsed
validate_datum depth table py options raise_errors at datum schema =
    bind (parsed depth py schema) (λ (s, named).
      validate depth (write_context table py named) options raise_errors at (some datum) s)
