-- ===== src/Read/Records.antt =====
-- fastavro/_read_py.py: `read_record` and `skip_record`.
use fastavro.Prelude.{ℕ, ◌+◌, ◌||◌, ltb, if◌then◌else◌, Option, none, some}
use fastavro.Python.Errors.{Result, ok, err, type_error, key_error, schema_resolution_error}
use fastavro.Python.Text.{Text, eq_text}
use fastavro.Python.Files.{Reader, pure, fail, ◌>>=◌}
use fastavro.Datum.{Datum, Entries, no_entries, dict, contains, set_entry, count_entries}
use fastavro.Schema.{
  Schema, Fields, union, record_schema, no_fields, field, contains_text, has_field,
}
use fastavro.Read.Values.{Read, Skip}

-- What the reader takes of one of its own fields.
pub record FieldInfo : Type 0 where
  pub name : Text
  pub type : Schema
  pub default : Option Datum

-- `readers_field_dict` and `aliases_field_dict`: the last field of that name, or with that alias.
unfoldable pub by_name : Text → Fields → Option FieldInfo
by_name t no_fields = none
by_name t (field name s default aliases fs) = elim (by_name t fs) [
  | some f ↦ some f
  | none ↦
      if eq_text name t then some (record { name = name; type = s; default = default }) else none
]

unfoldable pub by_alias : Text → Fields → Option FieldInfo
by_alias t no_fields = none
by_alias t (field name s default aliases fs) = elim (by_alias t fs) [
  | some f ↦ some f
  | none ↦
      if contains_text t aliases
      then some (record { name = name; type = s; default = default })
      else none
]

abbrev pub readers_field : Text → Fields → Option FieldInfo
readers_field t fs = elim (by_name t fs) [ some f ↦ some f | none ↦ by_alias t fs ]

-- `len(readers_field_dict)`: a name counts once.
unfoldable pub count_names : Fields → ℕ
count_names no_fields = 0
count_names (field name s default aliases fs) =
    (if has_field name fs then 0 else 1) + count_names fs

-- The writer's fields in order, without a reader's schema and with the reader's fields.
unfoldable pub read_fields : Read → Fields → Entries → Reader Entries
read_fields read no_fields es = pure es
read_fields read (field name s default aliases fs) es =
    read s none >>= λ d. read_fields read fs (set_entry name d es)

unfoldable pub read_resolved : Read → Skip → Fields → Fields → Entries → Reader Entries
read_resolved read skip no_fields rs es = pure es
read_resolved read skip (field name s default aliases fs) rs es = elim (readers_field name rs) [
  | none ↦ skip s >>= λ _. read_resolved read skip fs rs es
  | some f ↦ read s (some f.type) >>= λ d. read_resolved read skip fs rs (set_entry f.name d es)
]

-- The reader's fields that the writer lacks, in their order.
unfoldable pub fill_defaults : Fields → Fields → Fields → Entries → Result Entries
fill_defaults ws rs no_fields es = ok es
fill_defaults ws rs (field name s default aliases fs) es =
    if has_field name ws || contains name es
    then fill_defaults ws rs fs es
    else elim (by_name name rs) [
      | none ↦ err schema_resolution_error
      | some f ↦ elim f.default [
        | none ↦ err schema_resolution_error
        | some d ↦ fill_defaults ws rs fs (set_entry name d es)
      ]
    ]

abbrev pub missing_defaults : Fields → Fields → Entries → Result Entries
missing_defaults ws rs es =
    if ltb (count_entries es) (count_names rs) then fill_defaults ws rs rs es else ok es

-- `reader_schema["fields"]`
abbrev pub reader_fields : Schema → Result Fields
reader_fields (record_schema a f name aliases fs) = ok fs
reader_fields (union ss) = err type_error
reader_fields s = err key_error

unfoldable pub read_record : Read → Skip → Fields → Option Schema → Reader Datum
read_record read skip fs none = read_fields read fs no_entries >>= λ es. pure (dict es)
read_record read skip fs (some r) = fail (reader_fields r) >>= λ rs.
    read_resolved read skip fs rs no_entries >>= λ es.
    fail (missing_defaults fs rs es) >>= λ es'. pure (dict es')

unfoldable pub skip_record : Skip → Fields → Reader (Unit {0})
skip_record skip no_fields = pure tt
skip_record skip (field name s default aliases fs) = skip s >>= λ _. skip_record skip fs
