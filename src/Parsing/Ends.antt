-- ===== src/Parsing/Ends.antt =====
-- The checks of `_parse_schema` end, whatever the depth of calls that is left (fastavro/_schema_py.py).
use fastavro.Prelude.{
  ℕ, suc, Bool, true, List, [], ◌==◌, ◌+◌, ◌-◌, ◌*◌, ◌^◌, ◌||◌, leb, if◌then◌else◌, Option, none,
  some,
}
use fastavro.Python.Errors.{
  Result, ok, err, from_option, key_error, type_error, value_error, overflow_error,
  schema_parse_error, unknown_type,
}
use fastavro.Python.Errors.Ends.{Ends, Ends-bind, Ends-option, Ends-if, Ends-from_option}
use fastavro.Python.Ints.{ℤ, pos, negsuc}
use fastavro.Python.Text.{Text, text, eq_text}
use fastavro.Python.Floats.{Float, float_of_int, float_of_ℕ, bit_length, round_shift}
use fastavro.Datum.{
  Datum, str, list, dict, null, boolean, int, float, bytes, tuple, object, decimal, Items, nil,
  cons, Entries, get, as_dict, iterate, Platform, is_text, to_float,
}
use fastavro.Schema.{Schema, Schemas, Primitive, Flavour, no_schemas, also, prim, contains_text}
use fastavro.Parsing.Names.{Parsing, define_name}
use fastavro.Parsing.Checks.{
  floats, is_float, maybe_float, default_matches_primitive, default_matches_schema, check_default,
  natural?, positive, parse_size, check_size, check_scale, check_decimal, check_logical_type,
}
use fastavro.Parsing.Properties.{
  check_symbol, text_of, texts_of, list_of, parse_aliases, namespace_of, parse_name, is_symbol,
  parse_symbols, is_distinct, validate_enum_symbols,
}
use fastavro.Parsing.Kinds.{
  kind_named, kind_of, array_kind, map_kind, enum_kind, fixed_kind, record_kind, primitive_named,
  matches_any, look_up,
}
use fastavro.Parsing.Parse.{field_aliases}

-- What the platform does ends too.
abbrev pub PlatformEnds : Platform → Type 0
PlatformEnds py =
    ((s : Text) → Ends (py.float_of_text s))
    × ((s : Bool) (digits : List ℕ) (e : ℤ) → Ends (py.float_of_decimal s digits e))

float_of_ℕ-Ends : (n : ℕ) → Ends (float_of_ℕ n)
unfolding float_of_ℕ Ends
float_of_ℕ-Ends n =
    let len = bit_length n in
    let digits : ℕ = if leb len 53 then n * 2 ^ (53 - len) else round_shift n (len - 53) in
    let bits = (len + 1021) * 2 ^ 52 + digits in
    Ends-if (n == 0) (ok 0) _ tt
      (Ends-if (leb (2047 * 2 ^ 52) bits) (err overflow_error) (ok bits) tt tt)

float_of_int-Ends : (n : ℤ) → Ends (float_of_int n)
unfolding float_of_int Ends
float_of_int-Ends (pos n) = float_of_ℕ-Ends n
float_of_int-Ends (negsuc n) =
    Ends-bind (float_of_ℕ (suc n)) _ (float_of_ℕ-Ends (suc n)) (λ f e. tt)

floats-Ends : (b : Bool) (r : Result Float) → Ends r → Ends (floats b r)
unfolding Ends
floats-Ends b (ok f) h = tt
floats-Ends b (err type_error) h = tt
floats-Ends b (err value_error) h = tt
floats-Ends b (err e) h = h

module _ (py : Platform) (platform : PlatformEnds py) where
  to_float-Ends : (d : Datum) → Ends (to_float py d)
  unfolding Ends
  to_float-Ends (str s) = platform.0 s
  to_float-Ends (float f) = tt
  to_float-Ends (int n) = float_of_int-Ends n
  to_float-Ends (boolean b) = float_of_int-Ends _
  to_float-Ends (object (decimal s digits x)) = platform.1 s digits x
  to_float-Ends d = tt

  pub primitive-Ends : (d : Datum) (p : Primitive) → Ends (default_matches_primitive py d p)
  unfolding default_matches_primitive maybe_float Ends
  primitive-Ends d Primitive.double = floats-Ends (is_float d) (to_float py d) (to_float-Ends d)
  primitive-Ends d Primitive.float = floats-Ends (is_float d) (to_float py d) (to_float-Ends d)
  primitive-Ends d p = tt

  schema-Ends : (d : Datum) (s : Schema) → Ends (default_matches_schema py d s)
  unfolding default_matches_schema Ends
  schema-Ends d (prim p) = primitive-Ends d p
  schema-Ends d s = tt

  pub matches_any-Ends : (ss : Schemas) (d : Datum) → Ends (matches_any py ss d)
  unfolding matches_any Ends
  matches_any-Ends no_schemas d = tt
  matches_any-Ends (also s ss) d =
      Ends-bind (default_matches_schema py d s) _ (schema-Ends d s)
        (λ fits e. Ends-if fits (ok true) _ tt (matches_any-Ends ss d))

pub check_default-Ends :
    (ignore : Bool) (default : Option Datum) (test : Datum → Result Bool)
    → ((d : Datum) → Ends (test d))
    → Ends (check_default ignore default test)
unfolding check_default Ends
check_default-Ends ignore none test h = tt
check_default-Ends ignore (some d) test h =
    Ends-bind (test d) _ (h d)
      (λ fits e. Ends-if (fits || ignore) (ok tt) (err schema_parse_error) tt tt)

positive-Ends : (o : Option Datum) → Ends (positive o)
unfolding positive Ends
positive-Ends none = tt
positive-Ends (some d) =
    Ends-if _ _ (ok none) (Ends-option (natural? d) (err schema_parse_error) _ tt (λ n e. tt)) tt

pub parse_size-Ends : (es : Entries) → Ends (parse_size es)
unfolding parse_size Ends
parse_size-Ends es =
    Ends-bind (from_option key_error (get (text "size") es)) _ (Ends-from_option key_error _ tt)
      (λ d e. Ends-from_option type_error (natural? d) tt)

check_size-Ends : (es : Entries) (fixed : Bool) (o : Option ℕ) → Ends (check_size es fixed o)
unfolding check_size Ends
check_size-Ends es fixed none = tt
check_size-Ends es fixed (some precision) =
    Ends-if fixed _ (ok tt)
      (Ends-bind (parse_size es) _ (parse_size-Ends es)
        (λ size e. Ends-if _ (err schema_parse_error) (ok tt) tt tt))
      tt

check_scale-Ends : (scale precision : Option ℕ) → Ends (check_scale scale precision)
unfolding check_scale Ends
check_scale-Ends (some scale) (some precision) = Ends-if _ (err schema_parse_error) (ok tt) tt tt
check_scale-Ends (some scale) none = tt
check_scale-Ends none precision = tt

pub check_logical_type-Ends : (es : Entries) (type : Datum) → Ends (check_logical_type es type)
unfolding check_logical_type check_decimal Ends
check_logical_type-Ends es type = Ends-option (get (text "logicalType") es) (ok tt) _ tt (λ d e.
    Ends-if (is_text d (text "decimal")) _ (ok tt)
      (Ends-bind (positive (get (text "scale") es)) _ (positive-Ends (get (text "scale") es))
        (λ scale e.
          Ends-bind (positive (get (text "precision") es)) _
            (positive-Ends (get (text "precision") es))
            (λ precision e.
              Ends-bind (check_size es (is_text type (text "fixed")) precision) _
                (check_size-Ends es _ precision) (λ u e. check_scale-Ends scale precision))))
      tt)

pub text_of-Ends : (d : Datum) → Ends (text_of d)
unfolding Ends
text_of-Ends (str s) = tt
text_of-Ends d = tt

texts_of-Ends : (ds : Items) → Ends (texts_of ds)
unfolding texts_of Ends
texts_of-Ends nil = tt
texts_of-Ends (cons d ds) =
    Ends-bind (text_of d) _ (text_of-Ends d)
      (λ s e. Ends-bind (texts_of ds) _ (texts_of-Ends ds) (λ ss e. tt))

list_of-Ends : (d : Datum) → Ends (list_of d)
unfolding list_of Ends
list_of-Ends (list ds) = texts_of-Ends ds
list_of-Ends d = tt

pub parse_aliases-Ends : (es : Entries) → Ends (parse_aliases es)
unfolding parse_aliases Ends
parse_aliases-Ends es = Ends-option (get (text "aliases") es) (ok []) _ tt (λ d e. list_of-Ends d)

pub field_aliases-Ends : (es : Entries) → Ends (field_aliases es)
unfolding field_aliases Ends
field_aliases-Ends es =
    Ends-option (get (text "aliases") es) (ok []) _ tt
      (λ d e. Ends-if _ (list_of d) (err schema_parse_error) (list_of-Ends d) tt)

namespace_of-Ends : (o : Option Datum) → Ends (namespace_of o)
unfolding Ends
namespace_of-Ends none = tt
namespace_of-Ends (some null) = tt
namespace_of-Ends (some (str s)) = tt
namespace_of-Ends (some d) = tt

pub parse_name-Ends : (ns : Text) (es : Entries) → Ends (parse_name ns es)
unfolding parse_name Ends
parse_name-Ends ns es =
    Ends-bind (from_option schema_parse_error (get (text "name") es)) _
      (Ends-from_option schema_parse_error _ tt)
      (λ d e. Ends-bind (text_of d) _ (text_of-Ends d) (λ name e.
        Ends-bind (namespace_of (get (text "namespace") es)) _
          (namespace_of-Ends (get (text "namespace") es)) (λ n e. tt)))

parse_symbols-Ends : (ds : Items) → Ends (parse_symbols ds)
unfolding parse_symbols Ends
parse_symbols-Ends nil = tt
parse_symbols-Ends (cons (str s) ds) =
    Ends-if (is_symbol s) _ (err schema_parse_error)
      (Ends-bind (parse_symbols ds) _ (parse_symbols-Ends ds) (λ ss e. tt)) tt
parse_symbols-Ends (cons d ds) = tt

pub iterate-Ends : (d : Datum) → Ends (iterate d)
unfolding Ends
iterate-Ends (list ds) = tt
iterate-Ends (tuple ds) = tt
iterate-Ends (str s) = tt
iterate-Ends (bytes s) = tt
iterate-Ends (dict s) = tt
iterate-Ends d = tt

check_symbol-Ends : (o : Option Datum) (symbols : List Text) → Ends (check_symbol o symbols)
unfolding Ends
check_symbol-Ends none symbols = tt
check_symbol-Ends (some (str s)) symbols =
    Ends-if (contains_text s symbols) (ok (some s)) (err schema_parse_error) tt tt
check_symbol-Ends (some d) symbols = tt

pub validate_enum_symbols-Ends : (es : Entries) → Ends (validate_enum_symbols es)
unfolding validate_enum_symbols Ends
validate_enum_symbols-Ends es =
    Ends-bind (from_option key_error (get (text "symbols") es)) _ (Ends-from_option key_error _ tt)
      (λ d e. Ends-bind (iterate d) _ (iterate-Ends d) (λ ds e.
        Ends-bind (parse_symbols ds) _ (parse_symbols-Ends ds) (λ symbols e.
          Ends-if (is_distinct symbols) _ (err schema_parse_error)
            (Ends-bind (check_symbol (get (text "default") es) symbols) _
              (check_symbol-Ends (get (text "default") es) symbols) (λ symbol e. tt))
            tt)))

pub define_name-Ends : (name : Text) (st : Parsing) → Ends (define_name name st)
unfolding define_name Ends
define_name-Ends name st = Ends-if _ (err schema_parse_error) (ok _) tt tt

pub kind_of-Ends : (d : Datum) → Ends (kind_of d)
unfolding kind_of kind_named Ends
kind_of-Ends (str t) = Ends-if (eq_text t (text "array")) (ok array_kind) _ tt (
    Ends-if (eq_text t (text "map")) (ok map_kind) _ tt (
      Ends-if (eq_text t (text "enum")) (ok enum_kind) _ tt (
        Ends-if (eq_text t (text "fixed")) (ok fixed_kind) _ tt (
          Ends-if (eq_text t (text "record")) (ok (record_kind Flavour.plain)) _ tt (
            Ends-if (eq_text t (text "error")) (ok (record_kind Flavour.error)) _ tt
              (Ends-option (primitive_named t) (err (unknown_type t)) _ tt (λ p e. tt)))))))
kind_of-Ends (list ds) = tt
kind_of-Ends (dict es) = tt
kind_of-Ends d = tt

pub as_dict-Ends : (d : Datum) → Ends (as_dict d)
unfolding Ends
as_dict-Ends (dict es) = tt
as_dict-Ends d = tt

pub look_up-Ends :
    (expand : Bool) (name : Text) (o : Option (Option Schema)) → Ends (look_up expand name o)
unfolding look_up Ends
look_up-Ends expand name none = tt
look_up-Ends expand name (some s) = tt
