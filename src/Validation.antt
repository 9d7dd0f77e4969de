-- ===== src/Validation.antt =====
-- fastavro/_validation_py.py: whether a datum fits a schema.
use fastavro.Prelude.{
  ℕ, zero, suc, ◌-◌, Bool, true, false, not, ◌&&◌, List, ◌++◌, ◌==◌, if◌then◌else◌, Option, none,
  some, length, ◌^◌,
}
use fastavro.Python.Errors.{
  Result, ok, err, bind, value_error, validation_error, unknown_type, recursion_error,
}
use fastavro.Python.Ints.{ℤ, pos, negsuc, leb_ℤ}
use fastavro.Python.Text.{Text, text}
use fastavro.Datum.{
  Datum, Items, Entries, nil, cons, no_entries, entry, boolean, int, float, str, bytes, list, tuple,
  dict, get, is_text, byte_items,
}
use fastavro.Schema.{
  Schema, Schemas, Fields, Primitive, prim, ref, union, annotated, array, map, fixed, enum,
  record_schema, no_schemas, also, no_fields, field, primitive_text, extract_logical_type,
  contains_text, find_schema, plain, schema_name,
}
use fastavro.Context.{WriteContext, WriteOptions, LogicalWriters}

abbrev pub int_min : ℤ
int_min = negsuc (2 ^ 31 - 1)

abbrev pub int_max : ℤ
int_max = pos (2 ^ 31 - 1)

abbrev pub long_min : ℤ
long_min = negsuc (2 ^ 63 - 1)

abbrev pub long_max : ℤ
long_max = pos (2 ^ 63 - 1)

unfoldable pub validate_null : Datum → Bool
validate_null Datum.null = true
validate_null _ = false

unfoldable pub validate_boolean : Datum → Bool
validate_boolean (boolean b) = true
validate_boolean _ = false

unfoldable pub validate_string : Datum → Bool
validate_string (str s) = true
validate_string _ = false

unfoldable pub validate_bytes : Datum → Bool
validate_bytes (bytes b) = true
validate_bytes _ = false

unfoldable pub validate_int : Datum → Bool
validate_int (int n) = leb_ℤ int_min n && leb_ℤ n int_max
validate_int _ = false

unfoldable pub validate_long : Datum → Bool
validate_long (int n) = leb_ℤ long_min n && leb_ℤ n long_max
validate_long _ = false

unfoldable pub validate_float : Datum → Bool
validate_float (int n) = true
validate_float (float x) = true
validate_float _ = false

unfoldable pub validate_fixed : Datum → ℕ → Bool
validate_fixed (bytes b) size = length b == size
validate_fixed _ size = false

unfoldable pub validate_enum : Datum → List Text → Bool
validate_enum (str s) symbols = contains_text s symbols
validate_enum _ symbols = false

unfoldable pub validate_primitive : Primitive → Datum → Bool
validate_primitive Primitive.null = validate_null
validate_primitive Primitive.boolean = validate_boolean
validate_primitive Primitive.string = validate_string
validate_primitive Primitive.int = validate_int
validate_primitive Primitive.long = validate_long
validate_primitive Primitive.float = validate_float
validate_primitive Primitive.double = validate_float
validate_primitive Primitive.bytes = validate_bytes

-- `_validate` under its recursive calls: `check field datum schema`, with `none` for `NoValue`.
abbrev pub Check : Type 0
Check = Text → Option Datum → Schema → Result Bool

-- `and`: the second test is made only if the first holds.
abbrev pub and_then : Result Bool → Result Bool → Result Bool
and_then (ok true) r = r
and_then (ok false) r = ok false
and_then (err e) r = err e

-- `datum.get(f["name"], f.get("default", NoValue))`
abbrev pub value_or_default : Entries → Text → Option Datum → Option Datum
value_or_default es name default = elim (get name es) [ none ↦ default | some d ↦ some d ]

-- `"-type" in datum and datum["-type"] != fullname`
abbrev pub has_other_type : Entries → Text → Bool
has_other_type es fullname = elim (get (text "-type") es) [
  | none ↦ false
  | some d ↦ not (is_text d fullname)
]

-- `(name, datum) = datum`
abbrev pub unpair : Items → Result (Datum × Datum)
unpair (cons a (cons b nil)) = ok (a, b)
unpair _ = err value_error

-- What the name in a tuple is compared with: a record's name, or else the candidate itself, which
-- equals a text only if it is a string.
abbrev pub tuple_name : Schema → Option Text
tuple_name (record_schema a plain name aliases fs) = some name
tuple_name (prim p) = some (primitive_text p)
tuple_name (ref name) = some name
tuple_name _ = none

module _ (check : Check) where
  unfoldable pub all_items : Text → Schema → Items → Result Bool
  all_items at s nil = ok true
  all_items at s (cons d ds) = and_then (check at (some d) s) (all_items at s ds)

  unfoldable pub all_values : Text → Schema → Entries → Result Bool
  all_values at s no_entries = ok true
  all_values at s (entry k d es) = and_then (check at (some d) s) (all_values at s es)

  -- A bytes object is a sequence of integers; a string is ruled out.
  unfoldable pub validate_array : Text → Schema → Datum → Result Bool
  validate_array at s (list ds) = all_items at s ds
  validate_array at s (tuple ds) = all_items at s ds
  validate_array at s (bytes b) = all_items at s (byte_items b)
  validate_array at s _ = ok false

  unfoldable pub validate_map : Text → Schema → Datum → Result Bool
  validate_map at s (dict es) = all_values at s es
  validate_map at s _ = ok false

  unfoldable pub all_fields : Text → Entries → Fields → Result Bool
  all_fields fullname es no_fields = ok true
  all_fields fullname es (field name s default aliases fs) =
      and_then (check (fullname ++ (text "." ++ name)) (value_or_default es name default) s)
        (all_fields fullname es fs)

  unfoldable pub validate_record : Text → Text → Fields → Datum → Result Bool
  validate_record at name fs (dict es) =
      let fullname = (schema_name name none at).1 in
      if has_other_type es fullname then ok false else all_fields fullname es fs
  validate_record at name fs _ = ok false

  -- The first candidate of that name decides.
  unfoldable pub validate_named : Text → Datum → Datum → Schemas → Result Bool
  validate_named at name datum no_schemas = ok false
  validate_named at name datum (also s ss) =
      let rest = validate_named at name datum ss in
      elim (tuple_name s) [
        | none ↦ rest
        | some t ↦ if is_text name t then check at (some datum) s else rest
      ]

  -- The candidates in turn; a `ValidationError` of one is kept for the end.
  unfoldable pub validate_any : Text → Datum → Schemas → Result Bool
  validate_any at datum no_schemas = ok false
  validate_any at datum (also s ss) =
      let rest = validate_any at datum ss in
      elim (check at (some datum) s) [
        | ok true ↦ ok true
        | ok false ↦ rest
        | err validation_error ↦ rest
        | err e ↦ err e
      ]

  unfoldable pub validate_pair : Text → Items → Schemas → Result Bool
  validate_pair at ds ss = bind (unpair ds) (λ (name, datum). validate_named at name datum ss)

  unfoldable pub validate_union : WriteOptions → Bool → Text → Datum → Schemas → Result Bool
  validate_union options raise_errors at datum ss =
      let any =
        bind (validate_any at datum ss)
          (λ valid. if raise_errors && not valid then err validation_error else ok valid) in
      elim datum [
        | tuple ds ↦ if options.disable_tuple_notation then any else validate_pair at ds ss
        | _ ↦ any
      ]

-- `prepare(datum, schema)`, if the schema has a logical type that the table lists.
unfoldable pub prepare : LogicalWriters → Datum → Schema → Result Datum
prepare table datum s = elim (extract_logical_type s) [
  | none ↦ ok datum
  | some lt ↦ elim (table lt) [ none ↦ ok datum | some f ↦ f datum s ]
]

-- The validator of `VALIDATORS` for the schema's type; any other type is a name.
unfoldable pub run_validator :
    Check → WriteContext → WriteOptions → Bool → Text → Datum → Schema → Result Bool
run_validator check ctx options raise_errors at datum (prim p) = ok (validate_primitive p datum)
run_validator check ctx options raise_errors at datum (annotated p a) =
    ok (validate_primitive p datum)
run_validator check ctx options raise_errors at datum (fixed a name aliases size) =
    ok (validate_fixed datum size)
run_validator check ctx options raise_errors at datum (enum a name aliases symbols default) =
    ok (validate_enum datum symbols)
run_validator check ctx options raise_errors at datum (array a s) = validate_array check at s datum
run_validator check ctx options raise_errors at datum (map a s) = validate_map check at s datum
run_validator check ctx options raise_errors at datum (union ss) =
    validate_union check options raise_errors at datum ss
run_validator check ctx options raise_errors at datum (record_schema a f name aliases fs) =
    validate_record check at name fs datum
run_validator check ctx options raise_errors at datum (ref name) =
    elim (find_schema name ctx.named_schemas) [
      | none ↦ err (unknown_type name)
      | some s ↦ check at (some datum) s
    ]

-- `if raise_errors and result is False: raise ValidationError`
abbrev pub report : Bool → Bool → Result Bool
report raise_errors true = ok true
report raise_errors false = if raise_errors then err validation_error else ok false

-- The fuel is the depth of calls that Python has left.
unfoldable pub validate :
    ℕ → WriteContext → WriteOptions → Bool → Text → Option Datum → Schema → Result Bool
validate zero ctx options raise_errors at datum s = err recursion_error
validate (suc depth) ctx options raise_errors at datum s =
    let check = validate depth ctx options raise_errors in
    let absent : Bool = elim datum [ none ↦ true | some d ↦ false ] in
    let given : Datum = elim datum [ none ↦ Datum.null | some d ↦ d ] in
    if absent && options.strict
    then report raise_errors false
    else bind (prepare ctx.logical_writers given s)
        (λ d. bind (run_validator check ctx options raise_errors at d s) (report raise_errors))
