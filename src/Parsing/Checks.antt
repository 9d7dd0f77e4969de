-- ===== src/Parsing/Checks.antt =====
-- The checks of `_parse_schema` on a schema's properties (fastavro/_schema_py.py): defaults, logical
-- types and sizes. A size that is no natural number is a type error here.
use fastavro.Prelude.{
  ℕ, zero, suc, ◌-◌, ◌*◌, ◌^◌, Bool, true, false, ◌||◌, ltb, leb, if◌then◌else◌, Option, none, some,
}
use fastavro.Python.Errors.{
  Result, ok, err, bind, from_option, type_error, value_error, key_error, schema_parse_error,
}
use fastavro.Python.Ints.{pos}
use fastavro.Python.Text.{text}
use fastavro.Python.Floats.{Float}
use fastavro.Datum.{
  Datum, null, boolean, int, float, str, list, dict, Entries, get, is_text, is_truthy, Platform,
  to_float,
}
use fastavro.Schema.{Schema, Primitive, prim}

abbrev pub is_str : Datum → Bool
is_str (str s) = true
is_str d = false

abbrev pub is_bool : Datum → Bool
is_bool (boolean b) = true
is_bool d = false

abbrev pub is_null : Datum → Bool
is_null null = true
is_null d = false

-- A `bool` is an `int` of Python.
abbrev pub is_int : Datum → Bool
is_int (int n) = true
is_int (boolean b) = true
is_int d = false

abbrev pub is_float : Datum → Bool
is_float (float f) = true
is_float d = false

abbrev pub is_list : Datum → Bool
is_list (list ds) = true
is_list d = false

abbrev pub is_dict : Datum → Bool
is_dict (dict es) = true
is_dict d = false

-- `isinstance(_maybe_float(default), float)`
abbrev pub floats : Bool → Result Float → Result Bool
floats is_number (ok f) = ok true
floats is_number (err type_error) = ok is_number
floats is_number (err value_error) = ok is_number
floats is_number (err e) = err e

unfoldable pub maybe_float : Platform → Datum → Result Bool
maybe_float py d = floats (is_float d) (to_float py d)

unfoldable pub default_matches_primitive : Platform → Datum → Primitive → Result Bool
unfolding maybe_float
default_matches_primitive py d Primitive.null = ok (is_null d)
default_matches_primitive py d Primitive.boolean = ok (is_bool d)
default_matches_primitive py d Primitive.string = ok (is_str d)
default_matches_primitive py d Primitive.bytes = ok (is_str d)
default_matches_primitive py d Primitive.double = maybe_float py d
default_matches_primitive py d Primitive.float = maybe_float py d
default_matches_primitive py d Primitive.int = ok (is_int d)
default_matches_primitive py d Primitive.long = ok (is_int d)

unfoldable pub default_matches_schema : Platform → Datum → Schema → Result Bool
default_matches_schema py d (prim p) = default_matches_primitive py d p
default_matches_schema py d s = ok true

-- For a schema in braces, which takes no number for a float.
unfoldable pub default_matches_type : Datum → Primitive → Bool
default_matches_type d Primitive.null = is_null d
default_matches_type d Primitive.boolean = is_bool d
default_matches_type d Primitive.string = is_str d
default_matches_type d Primitive.bytes = is_str d
default_matches_type d Primitive.double = is_float d
default_matches_type d Primitive.float = is_float d
default_matches_type d Primitive.int = is_int d
default_matches_type d Primitive.long = is_int d

-- `if default is not NO_DEFAULT and not ...: _raise_default_value_error(...)`
unfoldable pub check_default : Bool → Option Datum → (Datum → Result Bool) → Result (Unit {0})
check_default ignore none test = ok tt
check_default ignore (some d) test =
    bind (test d) (λ (fits : Bool). if fits || ignore then ok tt else err schema_parse_error)

-- An `int` that is not negative.
abbrev pub natural? : Datum → Option ℕ
natural? (int (pos n)) = some n
natural? (boolean b) = some (if b then 1 else 0)
natural? d = none

-- `if scale and (not isinstance(scale, int) or scale < 0): raise`; nothing for what is false.
unfoldable pub positive : Option Datum → Result (Option ℕ)
positive none = ok none
positive (some d) =
    if is_truthy d
    then elim (natural? d) [ none ↦ err schema_parse_error | some n ↦ ok (some n) ]
    else ok none

-- `schema["size"]`
unfoldable pub parse_size : Entries → Result ℕ
parse_size es =
    bind (from_option key_error (get (text "size") es)) (λ d. from_option type_error (natural? d))

-- `math.floor(math.log10(2) * (8 * size - 1))`: the greatest power of ten up to `2 ** (8 * size - 1)`.
unfoldable pub greatest_power : ℕ → ℕ → ℕ
greatest_power zero n = 0
greatest_power (suc k) n =
    let rest = greatest_power k n in if leb (10 ^ suc k) n then suc k else rest

unfoldable pub max_precision : ℕ → ℕ
unfolding greatest_power
max_precision size = greatest_power (3 * size) (2 ^ (8 * size - 1))

unfoldable pub check_size : Entries → Bool → Option ℕ → Result (Unit {0})
check_size es is_fixed none = ok tt
check_size es is_fixed (some precision) =
    if is_fixed
    then bind (parse_size es)
        (λ (size : ℕ). if ltb (max_precision size) precision then err schema_parse_error else ok tt)
    else ok tt

unfoldable pub check_scale : Option ℕ → Option ℕ → Result (Unit {0})
check_scale (some scale) (some precision) =
    if ltb precision scale then err schema_parse_error else ok tt
check_scale scale precision = ok tt

unfoldable pub check_decimal : Entries → Datum → Result (Unit {0})
unfolding positive check_size check_scale
check_decimal es type = bind (positive (get (text "scale") es)) (λ scale.
    bind (positive (get (text "precision") es)) (λ precision.
      bind (check_size es (is_text type (text "fixed")) precision)
        (λ _. check_scale scale precision)))

unfoldable pub check_logical_type : Entries → Datum → Result (Unit {0})
check_logical_type es type = elim (get (text "logicalType") es) [
  | none ↦ ok tt
  | some d ↦ if is_text d (text "decimal") then check_decimal es type else ok tt
]
