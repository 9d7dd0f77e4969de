-- ===== src/Python/Dates.antt =====
-- The parts of Python's `datetime` that logical types use. A datetime or a difference of two is
-- counted in microseconds.
use fastavro.Prelude.{
  ℕ, zero, suc, ◌+◌, ◌-◌, ◌*◌, ◌/◌, ◌%◌, Bool, ◌&&◌, ◌||◌, not, leb, ltb, ◌==◌, if◌then◌else◌,
  Option, none, some, [], ◌∷◌,
}
use fastavro.Python.Errors.{Result, ok, err, value_error, overflow_error}
use fastavro.Python.Ints.{ℤ, pos, negsuc, ◌+ℤ◌, leb_ℤ}
use fastavro.Python.Text.{Text}

-- `a // k` and `a % k`, which round down.
abbrev pub div_ℤ : ℤ → ℕ → ℤ
div_ℤ (pos n) k = pos (n / k)
div_ℤ (negsuc n) k = negsuc (n / k)

abbrev pub mod_ℤ : ℤ → ℕ → ℕ
mod_ℤ (pos n) k = n % k
mod_ℤ (negsuc n) k = k - 1 - n % k

-- `int(a / k)`, which rounds towards zero. A float is exact enough for it up to 2 ^ 53.
abbrev pub quot_ℤ : ℤ → ℕ → ℤ
quot_ℤ (pos n) k = pos (n / k)
quot_ℤ (negsuc n) k = let q = suc n / k in if q == 0 then pos 0 else negsuc (q - 1)

abbrev pub day_micros : ℕ
day_micros = 86_400_000_000

-- A `timedelta`, with its parts as Python keeps them.
pub record Delta : Type 0 where
  pub days : ℤ
  pub seconds : ℕ
  pub microseconds : ℕ

abbrev pub delta_of : ℤ → Delta
delta_of t = record {
  days = div_ℤ t day_micros;
  seconds = mod_ℤ t day_micros / 1_000_000;
  microseconds = mod_ℤ t day_micros % 1_000_000;
}

-- The ordinals of the dates that there are, from 0001-01-01 to 9999-12-31.
abbrev pub max_ordinal : ℕ
max_ordinal = 3_652_059

abbrev pub is_ordinal : ℤ → Bool
is_ordinal o = leb_ℤ (pos 1) o && leb_ℤ o (pos max_ordinal)

abbrev pub epoch_ordinal : ℕ
epoch_ordinal = 719_163

-- The ordinal of the day of a moment.
abbrev pub ordinal_of : ℤ → ℤ
ordinal_of t = div_ℤ t day_micros +ℤ pos epoch_ordinal

-- `date.fromordinal(o)`, whose argument is a C integer first.
unfoldable pub date_from_ordinal : ℤ → Result ℕ
date_from_ordinal (pos o) =
    if leb 1 o && leb o max_ordinal
    then ok o
    else if leb 0x8000_0000 o
    then err overflow_error
    else err value_error
date_from_ordinal (negsuc n) = if leb 0x8000_0000 n then err overflow_error else err value_error

-- A moment, given as `epoch + timedelta(microseconds=t)`.
unfoldable pub moment : ℤ → Result ℤ
moment t = if is_ordinal (ordinal_of t) then ok t else err overflow_error

-- `time(h, m, s, us)`, of which m and s are below 60 and us is below a million here.
unfoldable pub make_time : ℤ → ℕ → ℕ → ℕ → Result (ℕ × ℕ × ℕ × ℕ)
make_time (pos h) m s us =
    if ltb h 24
    then ok (h, m, s, us)
    else if leb 0x8000_0000 h
    then err overflow_error
    else err value_error
make_time (negsuc n) m s us = if leb 0x8000_0000 n then err overflow_error else err value_error

-- The days before a year and before a month, in the Gregorian calendar.
abbrev pub is_leap : ℕ → Bool
is_leap y = y % 4 == 0 && (not (y % 100 == 0) || y % 400 == 0)

abbrev pub days_in_month : ℕ → ℕ → ℕ
days_in_month y m =
    if m == 2
    then if is_leap y then 29 else 28
    else if m == 4 || (m == 6 || (m == 9 || m == 11))
    then 30
    else 31

abbrev pub days_before_month : ℕ → ℕ → ℕ
days_before_month y zero = 0
days_before_month y (suc zero) = 0
days_before_month y (suc (suc m)) = days_before_month y (suc m) + days_in_month y (suc m)

abbrev pub days_before_year : ℕ → ℕ
days_before_year y = let n = y - 1 in n * 365 + n / 4 - n / 100 + n / 400

abbrev pub ordinal_of_date : ℕ → ℕ → ℕ → ℕ
ordinal_of_date y m d = days_before_year y + days_before_month y m + d

abbrev digit : ℕ → Option ℕ
digit c = if leb 48 c && leb c 57 then some (c - 48) else none

abbrev digits_value : ℕ → Text → Option ℕ
digits_value n [] = some n
digits_value n (c ∷ s) = elim (digit c) [ none ↦ none | some d ↦ digits_value (n * 10 + d) s ]

abbrev valid_date : ℕ → ℕ → ℕ → Bool
valid_date y m d = leb 1 y && (leb 1 m && (leb m 12 && (leb 1 d && leb d (days_in_month y m))))

-- `date.fromisoformat(s).toordinal()` for the form YYYY-MM-DD.
unfoldable pub ordinal_from_isoformat : Text → Result ℕ
ordinal_from_isoformat (y1 ∷ y2 ∷ y3 ∷ y4 ∷ a ∷ m1 ∷ m2 ∷ b ∷ d1 ∷ d2 ∷ []) =
    let year = digits_value 0 (y1 ∷ y2 ∷ y3 ∷ y4 ∷ []) in
    let month = digits_value 0 (m1 ∷ m2 ∷ []) in
    let day = digits_value 0 (d1 ∷ d2 ∷ []) in
    elim year [
      | none ↦ err value_error
      | some y ↦ elim month [
        | none ↦ err value_error
        | some m ↦ elim day [
          | none ↦ err value_error
          | some d ↦
              if a == b'-' && (b == b'-' && valid_date y m d)
              then ok (ordinal_of_date y m d)
              else err value_error
        ]
      ]
    ]
ordinal_from_isoformat _ = err value_error
