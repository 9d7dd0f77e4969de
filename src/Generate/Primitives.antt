-- ===== src/Generate/Primitives.antt =====
-- What `gen_data` draws for a primitive type is valid for it (fastavro/utils.py,
-- fastavro/_validation_py.py).
use fastavro.Prelude.{
  ◌+◌, ◌-◌, ◌*◌, Bool, true, false, ◌&&◌, ◌||◌, Option, if◌then◌else◌, ◌≡◌, refl, arith,
  ltb-eq_false,
}
use fastavro.Python.Errors.{Result, ok}
use fastavro.Python.Ints.{ℤ, pos, pos_part, neg_part, leb_ℤ, ltb_ℤ, ◌≤ℤ◌, neg, ◌+ℤ◌, ◌-ℤ◌}
use fastavro.Python.Text.{Text, text}
use fastavro.Python.Dates.{max_ordinal}
use fastavro.Datum.{Datum, int}
use fastavro.Schema.{Primitive}
use fastavro.Validation.{
  validate_primitive, validate_int, validate_long, validate_null, validate_string, validate_float,
  validate_boolean, validate_bytes, int_min, int_max, long_min, long_max,
}
use fastavro.Logical.Writers.{days_shift, mls_per_hour, mcs_per_hour}
use fastavro.Generate.{
  Random, Draw, randint, drawn_int, gen_int, gen_long, gen_primitive, is_type, max_timestamp_millis,
  max_timestamp_micros,
}

-- `randint` stays between its arguments.
abbrev pub IsFair : {R : Type 0} → Random R → Type 0
IsFair {R} random =
    (a b : ℤ) (r : R) → a ≤ℤ b → (a ≤ℤ (random.between a b r).0) × ((random.between a b r).0 ≤ℤ b)

between_lem :
    (lo a n b hi : ℤ) → lo ≤ℤ a → a ≤ℤ n → n ≤ℤ b → b ≤ℤ hi → (leb_ℤ lo n && leb_ℤ n hi) ≡ true
between_lem lo a n b hi p q r s = ground arith

module _ {R : Type 0} (random : Random R) (fair : IsFair random) where
  -- A value is drawn, and it passes a test.
  abbrev Passes : (Datum → Bool) → Result (Datum × R) → Type 0
  Passes test result = (d : Datum) × (r : R) × (result ≡ ok (d, r)) × (test d ≡ true)

  if-Passes :
      (test : Datum → Bool) (b : Bool) (x y : Draw random Datum) (r : R)
      → Passes test (x r)
      → Passes test (y r)
      → Passes test ((if b then x else y) r)
  if-Passes test true x y r h k = h
  if-Passes test false x y r h k = k

  drawn_lem :
      (a b : ℤ) (r : R)
      → a ≤ℤ b
      → drawn_int random a b r ≡ ok (int (random.between a b r).0, (random.between a b r).1)
  unfolding drawn_int randint
  drawn_lem a b r h =
      let some : ltb_ℤ b a ≡ false =
        ltb-eq_false (pos_part b + neg_part a) (pos_part a + neg_part b) (omega (arith, h)) in
      rw some refl

  int-Passes :
      (a b : ℤ) (r : R)
      → int_min ≤ℤ a
      → a ≤ℤ b
      → b ≤ℤ int_max
      → Passes validate_int (drawn_int random a b r)
  unfolding validate_int
  int-Passes a b r p q s =
      let n : ℤ = (random.between a b r).0 in
      let (low, high) = fair a b r q in
      (
        int n,
        (random.between a b r).1,
        drawn_lem a b r q,
        between_lem int_min a n b int_max p low high s,
      )

  long-Passes :
      (a b : ℤ) (r : R)
      → long_min ≤ℤ a
      → a ≤ℤ b
      → b ≤ℤ long_max
      → Passes validate_long (drawn_int random a b r)
  unfolding validate_long
  long-Passes a b r p q s =
      let n : ℤ = (random.between a b r).0 in
      let (low, high) = fair a b r q in
      (
        int n,
        (random.between a b r).1,
        drawn_lem a b r q,
        between_lem long_min a n b long_max p low high s,
      )

  gen_int-Passes : (lt : Option Text) (r : R) → Passes validate_int (gen_int random lt r)
  unfolding gen_int ◌+ℤ◌ ◌-ℤ◌
  gen_int-Passes lt r =
      if-Passes validate_int (is_type lt (text "int-date")) _ _ r
        (int-Passes (neg days_shift +ℤ pos 1) (pos max_ordinal -ℤ days_shift) r (omega arith)
          (omega arith) (omega arith))
        (if-Passes validate_int (is_type lt (text "int-time-millis")) _ _ r
          (int-Passes (pos 0) (pos (mls_per_hour * 24 - 1)) r (omega arith) (omega arith)
            (omega arith))
          (int-Passes int_min int_max r (omega arith) (omega arith) (omega arith)))

  gen_long-Passes : (lt : Option Text) (r : R) → Passes validate_long (gen_long random lt r)
  unfolding gen_long
  gen_long-Passes lt r =
      if-Passes validate_long (is_type lt (text "long-time-micros")) _ _ r
        (long-Passes (pos 0) (pos (mcs_per_hour * 24 - 1)) r (omega arith) (omega arith)
          (omega arith))
        (if-Passes validate_long
          (is_type lt (text "long-timestamp-millis")
            || is_type lt (text "long-local-timestamp-millis"))
          _ _ r
          (long-Passes (pos 0) (pos max_timestamp_millis) r (omega arith) (omega arith)
            (omega arith))
          (if-Passes validate_long
            (is_type lt (text "long-timestamp-micros")
              || is_type lt (text "long-local-timestamp-micros"))
            _ _ r
            (long-Passes (pos 0) (pos max_timestamp_micros) r (omega arith) (omega arith)
              (omega arith))
            (long-Passes long_min long_max r (omega arith) (omega arith) (omega arith))))

  gen_primitive-Passes :
      (p : Primitive) (lt : Option Text) (r : R)
      → Passes (validate_primitive p) (gen_primitive random p lt r)
  unfolding gen_primitive randint validate_primitive validate_null validate_string validate_float
      validate_boolean validate_bytes
  gen_primitive-Passes Primitive.null lt r = (_, _, refl, refl)
  gen_primitive-Passes Primitive.string lt r = (_, _, refl, refl)
  gen_primitive-Passes Primitive.int lt r = gen_int-Passes lt r
  gen_primitive-Passes Primitive.long lt r = gen_long-Passes lt r
  gen_primitive-Passes Primitive.float lt r = (_, _, refl, refl)
  gen_primitive-Passes Primitive.double lt r = (_, _, refl, refl)
  gen_primitive-Passes Primitive.boolean lt r = (_, _, refl, refl)
  gen_primitive-Passes Primitive.bytes lt r = (_, _, refl, refl)

-- If `random.randint` stays between its arguments, then `gen_data` returns a value for every primitive
-- type and every logical type, and the validator of the primitive type accepts it.
pub gen_primitive-validate_primitive :
    {R : Type 0} (random : Random R) (p : Primitive) (lt : Option Text) (r : R)
    → IsFair random
    → (d : Datum) × (r' : R) × (gen_primitive random p lt r ≡ ok (d, r'))
      × (validate_primitive p d ≡ true)
gen_primitive-validate_primitive random p lt r fair = gen_primitive-Passes random fair p lt r
