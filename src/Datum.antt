-- ===== src/Datum.antt =====
-- The Python values that are written and read.
use fastavro.Prelude.{
  ℕ, suc, ◌^◌, Bool, true, false, not, ◌&&◌, List, [], ◌∷◌, ◌==◌, if◌then◌else◌, Option, none, some,
  length,
}
use fastavro.Python.Errors.{Result, ok, err, type_error, attribute_error, Error}
use fastavro.Python.Ints.{ℤ, pos, negsuc}
use fastavro.Python.Text.{Text, Bytes, eq_text}
use fastavro.Python.Floats.{Float, float_of_int}

-- The values of the standard library that logical types stand for. A `datetime` is its local time in
-- microseconds since the first of January 1970 and, if it is aware, the offset of its zone from UTC;
-- a `date` is its ordinal; a `time` is its hour, minute, second and microsecond; a `Decimal` is what
-- `as_tuple` gives, and a `UUID` is its `str`.
pub data Object : Type 0 where
  decimal : Bool → List ℕ → ℤ → Object
  date : ℕ → Object
  time : ℕ → ℕ → ℕ → ℕ → Object
  naive : ℤ → Object
  aware : ℤ → ℤ → Object
  uuid : Text → Object

-- A `dict` has texts for keys, each once, in the order of their insertion.
mutual
  pub data Datum : Type 0 where
    null : Datum
    boolean : Bool → Datum
    int : ℤ → Datum
    float : Float → Datum
    str : Text → Datum
    bytes : Bytes → Datum
    list : Items → Datum
    tuple : Items → Datum
    dict : Entries → Datum
    object : Object → Datum

  pub data Items : Type 0 where
    nil : Items
    cons : Datum → Items → Items

  pub data Entries : Type 0 where
    no_entries : Entries
    entry : Text → Datum → Entries → Entries

abbrev pub count_items : Items → ℕ
count_items nil = 0
count_items (cons d ds) = suc (count_items ds)

abbrev pub count_entries : Entries → ℕ
count_entries no_entries = 0
count_entries (entry k d es) = suc (count_entries es)

-- `xs.append(x)`
abbrev pub append_item : Items → Datum → Items
append_item nil d = cons d nil
append_item (cons x xs) d = cons x (append_item xs d)

-- `d.get(key)`, `key in d` and `d[key] = value`.
abbrev pub get : Text → Entries → Option Datum
get k no_entries = none
get k (entry j d es) = if eq_text j k then some d else get k es

abbrev pub contains : Text → Entries → Bool
contains k es = elim (get k es) [ none ↦ false | some d ↦ true ]

abbrev pub set_entry : Text → Datum → Entries → Entries
set_entry k d no_entries = entry k d no_entries
set_entry k d (entry j c es) = if eq_text j k then entry j d es else entry j c (set_entry k d es)

abbrev pub keys : Entries → List Text
keys no_entries = []
keys (entry k d es) = k ∷ keys es

-- The conversions of Python's library that the model does not spell out: `float` of a text and of a
-- `Decimal`, `time.mktime` of a local time in seconds, and the `str` of the `UUID` of a text.
pub record Platform : Type 0 where
  pub float_of_text : Text → Result Float
  pub float_of_decimal : Bool → List ℕ → ℤ → Result Float
  pub mktime : ℤ → ℤ
  pub uuid_of_text : Text → Result Text
  pub is_windows : Bool

abbrev pub all_zero : List ℕ → Bool
all_zero [] = true
all_zero (d ∷ ds) = (d == 0) && all_zero ds

-- `1 if datum else 0`
abbrev pub is_truthy : Datum → Bool
is_truthy null = false
is_truthy (boolean b) = b
is_truthy (int (pos n)) = not (n == 0)
is_truthy (int (negsuc n)) = true
is_truthy (float f) = not (f == 0) && not (f == 2 ^ 63)
is_truthy (str s) = not (length s == 0)
is_truthy (bytes b) = not (length b == 0)
is_truthy (list ds) = not (count_items ds == 0)
is_truthy (tuple ds) = not (count_items ds == 0)
is_truthy (dict es) = not (count_entries es == 0)
is_truthy (object (decimal s digits e)) = not (all_zero digits)
is_truthy (object o) = true

-- `len(datum)`
abbrev pub len : Datum → Result ℕ
len (str s) = ok (length s)
len (bytes b) = ok (length b)
len (list ds) = ok (count_items ds)
len (tuple ds) = ok (count_items ds)
len (dict es) = ok (count_entries es)
len _ = err type_error

-- What an integer operator takes: an int, or a bool as 0 or 1.
abbrev pub as_int : Datum → Result ℤ
as_int (int n) = ok n
as_int (boolean b) = ok (pos (if b then 1 else 0))
as_int _ = err type_error

abbrev pub chars : Text → Items
chars [] = nil
chars (c ∷ s) = cons (str (c ∷ [])) (chars s)

abbrev pub byte_items : Bytes → Items
byte_items [] = nil
byte_items (b ∷ bs) = cons (int (pos b)) (byte_items bs)

abbrev pub key_items : Entries → Items
key_items no_entries = nil
key_items (entry k d es) = cons (str k) (key_items es)

-- What `for item in datum` goes through.
abbrev pub iterate : Datum → Result Items
iterate (list ds) = ok ds
iterate (tuple ds) = ok ds
iterate (str s) = ok (chars s)
iterate (bytes b) = ok (byte_items b)
iterate (dict es) = ok (key_items es)
iterate _ = err type_error

-- Whether each of the values has a hash, as a member of a set must: a list and a dict have none, and a
-- tuple has one if its members do.
unfoldable pub are_hashable : Items → Bool
are_hashable nil = true
are_hashable (cons (list ds) more) = false
are_hashable (cons (dict es) more) = false
are_hashable (cons (tuple ds) more) = are_hashable ds && are_hashable more
are_hashable (cons d more) = are_hashable more

-- `datum.items()`
abbrev pub as_dict : Datum → Result Entries
as_dict (dict es) = ok es
as_dict _ = err attribute_error

-- `datum == text`
abbrev pub is_text : Datum → Text → Bool
is_text (str s) t = eq_text s t
is_text _ t = false

-- The number that `struct.pack` takes for a float, and the builtin `float(datum)`.
abbrev pub real : Platform → Error → Datum → Result Float
real py e (float f) = ok f
real py e (int n) = float_of_int n
real py e (boolean b) = float_of_int (pos (if b then 1 else 0))
real py e (object (decimal s digits x)) = py.float_of_decimal s digits x
real py e _ = err e

abbrev pub to_float : Platform → Datum → Result Float
to_float py (str s) = py.float_of_text s
to_float py d = real py type_error d
