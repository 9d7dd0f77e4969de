-- ===== src/Logical/Times.antt =====
-- Dates, times and timestamps: what was prepared for writing is read back.
use fastavro.Prelude.{
  ℕ, suc, ◌+◌, ◌-◌, ◌*◌, ◌/◌, ◌%◌, ◌≤◌, ◌<◌, ◌≡◌, refl, ap, ◌∙◌, true, arith, leb-eq_true,
  ltb-eq_true,
}
use fastavro.Python.Errors.{ok, bind}
use fastavro.Python.Ints.{ℤ, pos, negsuc, ◌-ℤ◌, ◌*ℤ◌}
use fastavro.Python.Ints.Laws.{add_pos, mul_pos, add_neg, mul_neg, add-sub_cancel, sub-add_cancel}
use fastavro.Python.Dates.{
  div_ℤ, day_micros, epoch_ordinal, is_ordinal, ordinal_of, max_ordinal, date_from_ordinal, moment,
  make_time, ordinal_of_date,
}
use fastavro.Datum.{Platform, object, date, time, int, naive, aware}
use fastavro.Schema.{Schema}
use fastavro.Logical.Writers.{
  delta_in, delta_millis, delta_micros, prepare_timestamp_millis, prepare_local_timestamp_millis,
  prepare_timestamp_micros, prepare_local_timestamp_micros, prepare_date, prepare_time_millis,
  prepare_time_micros, mcs_per_hour, mcs_per_minute, mcs_per_second, mls_per_hour, mls_per_minute,
  mls_per_second,
}
use fastavro.Logical.Readers.{
  read_timestamp_millis, read_local_timestamp_millis, read_timestamp_micros,
  read_local_timestamp_micros, read_date, read_time_millis, read_time_micros,
}

delta_in_pos :
    (unit d seconds us f : ℕ)
    → delta_in unit (record { days = pos d; seconds = seconds; microseconds = us }) f
      ≡ pos ((d * 24 * 3600 + seconds) * unit + f)
unfolding delta_in
delta_in_pos unit d seconds us f =
    rw
      (
        mul_pos d 24,
        mul_pos (d * 24) 3600,
        add_pos (d * 24 * 3600) seconds,
        mul_pos (d * 24 * 3600 + seconds) unit,
      )
      (add_pos ((d * 24 * 3600 + seconds) * unit) f)

delta_in_neg :
    (unit d seconds us f m c : ℕ)
    → seconds < 86_400
    → suc (d * 86_400 + 86_399 - seconds) * unit ≡ suc m
    → m ≡ f + c
    → delta_in unit (record { days = negsuc d; seconds = seconds; microseconds = us }) f ≡ negsuc c
unfolding delta_in
delta_in_neg unit d seconds us f m c h e e' =
    rw
      (
        mul_neg d 24 (d * 24 + 23) (omega arith),
        mul_neg (d * 24 + 23) 3600 (d * 86_400 + 86_399) (omega arith),
        add_neg (d * 86_400 + 86_399) seconds (d * 86_400 + 86_399 - seconds) (omega arith),
        mul_neg (d * 86_400 + 86_399 - seconds) unit m e,
      )
      (add_neg m f c e')

delta_millis_lem : (t : ℤ) → delta_millis t ≡ div_ℤ t 1000
delta_millis_lem (pos n) = delta_in_pos 1000 _ _ _ _ ∙ ap (λ (k : ℕ). pos k) (omega arith)
delta_millis_lem (negsuc n) =
    delta_in_neg 1000 (n / day_micros) ((day_micros - 1 - n % day_micros) / 1_000_000) _ _
      (suc ((n / day_micros) * 86_400 + 86_399 - (day_micros - 1 - n % day_micros) / 1_000_000)
          * 1000
        - 1)
      _ (omega arith) (omega arith) (omega arith)

delta_micros_lem : (t : ℤ) → delta_micros t ≡ t
delta_micros_lem (pos n) = delta_in_pos 1_000_000 _ _ _ _ ∙ ap (λ (k : ℕ). pos k) (omega arith)
delta_micros_lem (negsuc n) =
    delta_in_neg 1_000_000 (n / day_micros) ((day_micros - 1 - n % day_micros) / 1_000_000) _ _
      (suc ((n / day_micros) * 86_400 + 86_399 - (day_micros - 1 - n % day_micros) / 1_000_000)
          * 1_000_000
        - 1)
      _ (omega arith) (omega arith) (omega arith)

-- Every date is written as the difference of its ordinal from the calendar's for 1970-01-01, and comes
-- back; a datetime is written as the whole days from 1970-01-01 to its local time, rounded down.
pub read_date-prepare_date :
    (o : ℕ) (t offset : ℤ) (s : Schema)
    → 1 ≤ o
    → o ≤ max_ordinal
    → (prepare_date (object (date o)) s ≡ ok (int (pos o -ℤ pos (ordinal_of_date 1970 1 1))))
      × (bind (prepare_date (object (date o)) s) read_date ≡ ok (object (date o)))
      × (prepare_date (object (naive t)) s ≡ ok (int (div_ℤ t day_micros)))
      × (prepare_date (object (aware t offset)) s ≡ ok (int (div_ℤ t day_micros)))
unfolding prepare_date read_date date_from_ordinal
read_date-prepare_date o t offset s lo hi = (
  refl,
  rw (add-sub_cancel o epoch_ordinal, leb-eq_true 1 o lo, leb-eq_true o max_ordinal hi) refl,
  ap (λ (z : ℤ). ok (int z)) (sub-add_cancel (div_ℤ t day_micros) epoch_ordinal),
  ap (λ (z : ℤ). ok (int z)) (sub-add_cancel (div_ℤ t day_micros) epoch_ordinal),
)

-- Every time of day comes back from the microseconds that are written for it.
pub read_time_micros-prepare_time_micros :
    (h m s us : ℕ) (schema : Schema)
    → h < 24
    → m < 60
    → s < 60
    → us < 1_000_000
    → bind (prepare_time_micros (object (time h m s us)) schema) read_time_micros
      ≡ ok (object (time h m s us))
unfolding prepare_time_micros read_time_micros make_time
read_time_micros-prepare_time_micros h m s us schema hh hm hs hu =
    rw (the_hour, the_minute, the_second, the_rest, ltb-eq_true h 24 hh) refl
  where
    the_hour : (h * mcs_per_hour + m * mcs_per_minute + s * mcs_per_second + us) / mcs_per_hour ≡ h
    the_hour = omega arith

    the_minute :
        (h * mcs_per_hour + m * mcs_per_minute + s * mcs_per_second + us) / mcs_per_minute % 60 ≡ m
    the_minute = omega arith

    the_second :
        (h * mcs_per_hour + m * mcs_per_minute + s * mcs_per_second + us) / mcs_per_second % 60 ≡ s
    the_second = omega arith

    the_rest :
        (h * mcs_per_hour + m * mcs_per_minute + s * mcs_per_second + us) % mcs_per_second ≡ us
    the_rest = omega arith

-- A time of day comes back from the milliseconds that are written for it, cut off to milliseconds.
pub read_time_millis-prepare_time_millis :
    (h m s us : ℕ) (schema : Schema)
    → h < 24
    → m < 60
    → s < 60
    → us < 1_000_000
    → bind (prepare_time_millis (object (time h m s us)) schema) read_time_millis
      ≡ ok (object (time h m s (us / 1000 * 1000)))
unfolding prepare_time_millis read_time_millis make_time
read_time_millis-prepare_time_millis h m s us schema hh hm hs hu =
    rw (the_hour, the_minute, the_second, the_rest, ltb-eq_true h 24 hh) refl
  where
    the_hour :
        (h * mls_per_hour + m * mls_per_minute + s * mls_per_second + us / 1000) / mls_per_hour ≡ h
    the_hour = omega arith

    the_minute :
        (h * mls_per_hour + m * mls_per_minute + s * mls_per_second + us / 1000)
          / mls_per_minute
          % 60
        ≡ m
    the_minute = omega arith

    the_second :
        (h * mls_per_hour + m * mls_per_minute + s * mls_per_second + us / 1000)
          / mls_per_second
          % 60
        ≡ s
    the_second = omega arith

    the_rest :
        (h * mls_per_hour + m * mls_per_minute + s * mls_per_second + us / 1000) % mls_per_second
        ≡ us / 1000
    the_rest = omega arith

moment-ok : (t : ℤ) → is_ordinal (ordinal_of t) ≡ true → moment t ≡ ok t
unfolding moment
moment-ok t h = rw h refl

-- A moment comes back from the microseconds that are written for it: an aware one as the same moment in
-- UTC, and a local one as it was.
pub read_timestamp_micros-prepare_timestamp_micros :
    (py : Platform) (t offset : ℤ) (s : Schema)
    → is_ordinal (ordinal_of (t -ℤ offset)) ≡ true
    → is_ordinal (ordinal_of t) ≡ true
    → (bind (prepare_timestamp_micros py (object (aware t offset)) s) read_timestamp_micros
        ≡ ok (object (aware (t -ℤ offset) (pos 0))))
      × (bind (prepare_local_timestamp_micros (object (naive t)) s) read_local_timestamp_micros
          ≡ ok (object (naive t)))
unfolding prepare_timestamp_micros read_timestamp_micros prepare_local_timestamp_micros
    read_local_timestamp_micros
read_timestamp_micros-prepare_timestamp_micros py t offset s h k = (
  rw (delta_micros_lem (t -ℤ offset), moment-ok (t -ℤ offset) h) refl,
  rw (delta_micros_lem t, moment-ok t k) refl,
)

-- The moment at the beginning of the millisecond.
abbrev pub whole_millis : ℤ → ℤ
whole_millis t = div_ℤ t 1000 *ℤ pos 1000

whole_millis-day : (t : ℤ) → div_ℤ (whole_millis t) day_micros ≡ div_ℤ t day_micros
whole_millis-day (pos n) = rw (mul_pos (n / 1000) 1000) (ap (λ (k : ℕ). pos k) (omega arith))
whole_millis-day (negsuc n) =
    rw (mul_neg (n / 1000) 1000 (n / 1000 * 1000 + 999) (omega arith))
      (ap (λ (k : ℕ). negsuc k) (omega arith))

whole_millis-ok :
    (t : ℤ) → is_ordinal (ordinal_of t) ≡ true → moment (whole_millis t) ≡ ok (whole_millis t)
whole_millis-ok t h = moment-ok (whole_millis t) (rw (whole_millis-day t) h)

-- A moment comes back from the milliseconds that are written for it, cut off to the beginning of its
-- millisecond, also before the epoch: an aware one as a moment in UTC, and a local one as it was.
pub read_timestamp_millis-prepare_timestamp_millis :
    (py : Platform) (t offset : ℤ) (s : Schema)
    → is_ordinal (ordinal_of (t -ℤ offset)) ≡ true
    → is_ordinal (ordinal_of t) ≡ true
    → (bind (prepare_timestamp_millis py (object (aware t offset)) s) read_timestamp_millis
        ≡ ok (object (aware (whole_millis (t -ℤ offset)) (pos 0))))
      × (bind (prepare_local_timestamp_millis (object (naive t)) s) read_local_timestamp_millis
          ≡ ok (object (naive (whole_millis t))))
unfolding prepare_timestamp_millis read_timestamp_millis prepare_local_timestamp_millis
    read_local_timestamp_millis
read_timestamp_millis-prepare_timestamp_millis py t offset s h k = (
  rw (delta_millis_lem (t -ℤ offset), whole_millis-ok (t -ℤ offset) h) refl,
  rw (delta_millis_lem t, whole_millis-ok t k) refl,
)
