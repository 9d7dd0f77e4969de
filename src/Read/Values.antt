-- ===== src/Read/Values.antt =====
-- fastavro/_read_py.py: the readers and the skips of every type but unions' readers and records.
use fastavro.Prelude.{
  ℕ, suc, ◌-◌, List, ◌∷◌, ltb, if◌then◌else◌, Option, none, some, length, get_elem?,
}
use fastavro.Python.Errors.{
  Result, ok, err, bind, from_option, key_error, index_error, schema_resolution_error,
}
use fastavro.Python.Ints.{ℤ, pos, negsuc}
use fastavro.Python.Text.{Text, decode}
use fastavro.Python.Files.{Reader, pure, fail, ◌>>=◌}
use fastavro.Datum.{
  Datum, Items, Entries, nil, no_entries, boolean, int, float, str, bytes, list, dict, set_entry,
  append_item,
}
use fastavro.Schema.{
  Schema, Schemas, Primitive, union, array, map, enum, no_schemas, contains_text, get_schema,
  count_schemas,
}
use fastavro.Context.{ReadOptions}
use fastavro.Binary.Decoder.{
  read_null, read_boolean, read_long, read_float, read_double, read_bytes, read_utf8, read_index,
  iter_array_or_map,
}
use fastavro.Binary.Decoder

-- `xs[i]` on a list of n elements: a negative index counts from the end.
abbrev pub list_index : ℕ → ℤ → Option ℕ
list_index n (pos i) = some i
list_index n (negsuc i) = if ltb i n then some (n - suc i) else none

abbrev pub schema_at : Schemas → ℤ → Result Schema
schema_at ss i = elim (list_index (count_schemas ss) i) [
  | none ↦ err index_error
  | some j ↦ from_option index_error (get_schema ss j)
]

abbrev pub symbol_at : List Text → ℤ → Result Text
symbol_at symbols i = elim (list_index (length symbols) i) [
  | none ↦ err index_error
  | some j ↦ from_option index_error (get_elem? symbols j)
]

-- `if reader_schema:` fails for no schema and for an empty union.
abbrev pub given : Option Schema → Option Schema
given none = none
given (some (union no_schemas)) = none
given (some s) = some s

unfoldable pub read_primitive : ReadOptions → Primitive → Reader Datum
read_primitive options Primitive.null = read_null
read_primitive options Primitive.boolean = read_boolean >>= λ b. pure (boolean b)
read_primitive options Primitive.string = read_utf8 options.decode_with >>= λ s. pure (str s)
read_primitive options Primitive.int = read_long >>= λ n. pure (int n)
read_primitive options Primitive.long = read_long >>= λ n. pure (int n)
read_primitive options Primitive.float = read_float >>= λ x. pure (float x)
read_primitive options Primitive.double = read_double >>= λ x. pure (float x)
read_primitive options Primitive.bytes = read_bytes >>= λ b. pure (bytes b)

-- A skipped text is decoded all the same, and strictly.
unfoldable pub skip_primitive : Primitive → Reader (Unit {0})
skip_primitive Primitive.null = read_null >>= λ _. pure tt
skip_primitive Primitive.boolean = read_boolean >>= λ _. pure tt
skip_primitive Primitive.string = read_utf8 decode >>= λ _. pure tt
skip_primitive Primitive.int = read_long >>= λ _. pure tt
skip_primitive Primitive.long = read_long >>= λ _. pure tt
skip_primitive Primitive.float = read_float >>= λ _. pure tt
skip_primitive Primitive.double = read_double >>= λ _. pure tt
skip_primitive Primitive.bytes = read_bytes >>= λ _. pure tt

unfoldable pub read_fixed : ℕ → Reader Datum
read_fixed size = Decoder.read_fixed (pos size) >>= λ b. pure (bytes b)

-- A writer's symbol that the reader does not list becomes the reader's default, unless that is
-- missing or empty.
abbrev pub enum_default : Option Text → Result Datum
enum_default (some (c ∷ s)) = ok (str (c ∷ s))
enum_default _ = err schema_resolution_error

unfoldable pub resolve_symbol : Option Schema → Text → Result Datum
resolve_symbol none symbol = ok (str symbol)
resolve_symbol (some (enum a name aliases symbols default)) symbol =
    if contains_text symbol symbols then ok (str symbol) else enum_default default
resolve_symbol (some s) symbol = err key_error

unfoldable pub read_enum : List Text → Option Schema → Reader Datum
read_enum symbols r =
    Decoder.read_enum >>= λ i. fail (bind (symbol_at symbols i) (resolve_symbol (given r)))

-- `read_data` and `skip_data` under their recursive calls.
abbrev pub Read : Type 0
Read = Schema → Option Schema → Reader Datum

abbrev pub Skip : Type 0
Skip = Schema → Reader (Unit {0})

-- `r_schema["items"]` and `r_schema["values"]`, if there is a reader's schema.
abbrev pub reader_items : Option Schema → Result (Option Schema)
reader_items none = ok none
reader_items (some (array a s)) = ok (some s)
reader_items (some s) = err key_error

abbrev pub reader_values : Option Schema → Result (Option Schema)
reader_values none = ok none
reader_values (some (map a s)) = ok (some s)
reader_values (some s) = err key_error

unfoldable pub read_item : Read → Schema → Option Schema → Items → Reader Items
read_item read s r items =
    fail (reader_items (given r)) >>= λ r'. read s r' >>= λ d. pure (append_item items d)

unfoldable pub read_array : Read → Schema → Option Schema → Reader Datum
read_array read s r = iter_array_or_map (read_item read s r) nil >>= λ items. pure (list items)

-- A key is read with the default `errors="strict"`.
unfoldable pub read_pair : Read → Schema → Option Schema → Entries → Reader Entries
read_pair read s r es = read_utf8 decode >>= λ key.
    fail (reader_values (given r)) >>= λ r'. read s r' >>= λ d. pure (set_entry key d es)

unfoldable pub read_map : Read → Schema → Option Schema → Reader Datum
read_map read s r = iter_array_or_map (read_pair read s r) no_entries >>= λ es. pure (dict es)

unfoldable pub skip_array : Skip → Schema → Reader (Unit {0})
skip_array skip s = iter_array_or_map (λ _. skip s) tt

unfoldable pub skip_map : Skip → Schema → Reader (Unit {0})
skip_map skip s = iter_array_or_map (λ _. read_utf8 decode >>= λ key. skip s) tt

unfoldable pub skip_union : Skip → Schemas → Reader (Unit {0})
skip_union skip ss = read_index >>= λ i. fail (schema_at ss i) >>= λ s. skip s
