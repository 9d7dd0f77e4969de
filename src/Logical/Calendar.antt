-- ===== src/Logical/Calendar.antt =====
-- Dates counted day by day through the Gregorian calendar, against the days since the epoch that
-- `prepare_date` writes (fastavro/_logical_writers_py.py).
use fastavro.Prelude.{
  ℕ, zero, suc, ◌+◌, ◌≤◌, false, ltb, if◌then◌else◌, ◌≡◌, refl, sym, ap, ◌∙◌, arith, inl, inr,
  Bool-cases,
}
use fastavro.Python.Errors.{ok}
use fastavro.Python.Ints.{ℤ, pos, neg, ◌-ℤ◌}
use fastavro.Python.Dates.{days_in_month, days_before_month, days_before_year, ordinal_of_date}
use fastavro.Datum.{object, date, int}
use fastavro.Schema.{Schema}
use fastavro.Logical.Writers.{prepare_date}

-- A year, a month and a day.
pub record Day : Type 0 where
  pub year : ℕ
  pub month : ℕ
  pub day : ℕ

abbrev pub IsDay : Day → Type 0
IsDay a =
    (1 ≤ a.year)
    × (1 ≤ a.month)
    × (a.month ≤ 12)
    × (1 ≤ a.day)
    × (a.day ≤ days_in_month a.year a.month)

abbrev pub ordinal : Day → ℕ
ordinal a = ordinal_of_date a.year a.month a.day

abbrev pub epoch : Day
epoch = record { year = 1970; month = 1; day = 1 }

-- The next day: in the same month, or else the first of the next month, or else of the next year.
unfoldable pub next_day : Day → Day
next_day a =
    if ltb a.day (days_in_month a.year a.month)
    then record { year = a.year; month = a.month; day = suc a.day }
    else if ltb a.month 12
    then record { year = a.year; month = suc a.month; day = 1 }
    else record { year = suc a.year; month = 1; day = 1 }

unfoldable pub later : ℕ → Day → Day
later zero a = a
later (suc n) a = later n (next_day a)

days_in_month-pos : (y m : ℕ) → 1 ≤ days_in_month y m
days_in_month-pos y m = ground arith

before-next_month :
    (y m : ℕ) → 1 ≤ m → days_before_month y (suc m) ≡ days_before_month y m + days_in_month y m
before-next_month y zero h = absurd (omega arith)
before-next_month y (suc m) h = refl

-- The year ends with December, and a leap year has a day more.
year-days :
    (y : ℕ) → 1 ≤ y → days_before_year (suc y) ≡ days_before_year y + days_before_month y 12 + 31
year-days y h = ground arith

ltb-eq_false_le : (a b : ℕ) → a ≤ b → ltb a b ≡ false → a ≡ b
ltb-eq_false_le a b h e = ground arith

IsDay-next_day : (a : Day) → IsDay a → IsDay (next_day a)
unfolding next_day
IsDay-next_day a (y, m, top, d, last) =
    elim (Bool-cases (ltb a.day (days_in_month a.year a.month))) [
      | inl e ↦ rw e (y, m, top, omega arith, ground arith)
      | inr e ↦ elim (Bool-cases (ltb a.month 12)) [
        | inl f ↦
            rw (e, f)
              (y, omega arith, ground arith, omega arith, days_in_month-pos a.year (suc a.month))
        | inr f ↦ rw (e, f) (omega arith, omega arith, omega arith, omega arith, omega arith)
      ]
    ]

-- The day after the last of a year is the first of the next.
december :
    (a : Day)
    → 1 ≤ a.year
    → a.month ≡ 12
    → a.day ≡ days_in_month a.year a.month
    → days_before_year (suc a.year) + 0 + 1 ≡ suc (ordinal a)
december a y m d = rw (d, m) (omega (arith, year-days a.year y))

ordinal-next_day : (a : Day) → IsDay a → ordinal (next_day a) ≡ suc (ordinal a)
unfolding next_day
ordinal-next_day a (y, m, top, d, last) =
    elim (Bool-cases (ltb a.day (days_in_month a.year a.month))) [
      | inl e ↦ rw e (omega arith)
      | inr e ↦ elim (Bool-cases (ltb a.month 12)) [
        | inl f ↦
            rw (e, f)
              (omega (
                arith,
                before-next_month a.year a.month m,
                ltb-eq_false_le a.day (days_in_month a.year a.month) last e,
              ))
        | inr f ↦
            rw (e, f)
              (december a y (ltb-eq_false_le a.month 12 top f)
                (ltb-eq_false_le a.day (days_in_month a.year a.month) last e))
      ]
    ]

ordinal-later : (n : ℕ) (a : Day) → IsDay a → ordinal (later n a) ≡ n + ordinal a
unfolding later
ordinal-later zero a h = omega arith
ordinal-later (suc n) a h =
    omega (arith, ordinal-later n (next_day a) (IsDay-next_day a h), ordinal-next_day a h)

sub-after : (a m n : ℕ) → a ≡ n + m → pos a -ℤ pos m ≡ pos n
unfolding ◌-ℤ◌
sub-after a m n e = ground arith

sub-before : (a m n : ℕ) → n + a ≡ m → pos a -ℤ pos m ≡ neg (pos n)
unfolding ◌-ℤ◌
sub-before a m n e = ground arith

epoch-IsDay : IsDay epoch
epoch-IsDay = (omega arith, omega arith, omega arith, omega arith, omega arith)

-- The day that is k days after 1970-01-01 by the calendar is written as k, and a day that is n days
-- before it as -n.
pub prepare_date-later :
    (k n : ℕ) (a : Day) (s : Schema)
    → IsDay a
    → later n a ≡ epoch
    → (prepare_date (object (date (ordinal (later k epoch)))) s ≡ ok (int (pos k)))
      × (prepare_date (object (date (ordinal a))) s ≡ ok (int (neg (pos n))))
unfolding prepare_date
prepare_date-later k n a s day before = (
  ap (λ (z : ℤ). ok (int z))
      (sub-after (ordinal (later k epoch)) 719_163 k (ordinal-later k epoch epoch-IsDay)),
  ap (λ (z : ℤ). ok (int z))
      (sub-before (ordinal a) 719_163 n (sym (ordinal-later n a day) ∙ ap ordinal before)),
)
