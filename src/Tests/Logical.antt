-- ===== src/Tests/Logical.antt =====
-- Dates, times, timestamps and decimals.
use fastavro.Prelude.{[], ◌∷◌, ◌≡◌, refl, some, true, arith, length}
use fastavro.Python.Errors.{ok, bind}
use fastavro.Python.Ints.{pos, negsuc, neg, ◌+ℤ◌, ◌-ℤ◌}
use fastavro.Python.Text.{Bytes, text}
use fastavro.Python.Floats.{bit_length, bit_length_upto}
use fastavro.Python.Dates.{ordinal_from_isoformat, ordinal_of_date, div_ℤ, day_micros}
use fastavro.Datum.{int, object, date, time, naive, aware, decimal}
use fastavro.Schema.{Schema, Primitive, annotated}
use fastavro.Logical.Digits.{digits_value, decimal_digits, digits_upto, from_signed_bytes}
use fastavro.Logical.Writers.{
  prepare_date, prepare_time_millis, prepare_time_micros, prepare_timestamp_millis,
  prepare_timestamp_micros, prepare_local_timestamp_millis, prepare_local_timestamp_micros,
  prepare_bytes_decimal, fixed_bytes, fixed_decimal_bytes,
}
use fastavro.Logical.Readers.{
  read_date, read_time_millis, read_time_micros, read_timestamp_millis, read_timestamp_micros,
  read_local_timestamp_millis, read_local_timestamp_micros, read_decimal,
}
use fastavro.Logical.Times.{
  read_date-prepare_date, read_time_micros-prepare_time_micros,
  read_time_millis-prepare_time_millis, read_timestamp_micros-prepare_timestamp_micros,
  read_timestamp_millis-prepare_timestamp_millis, whole_millis,
}
use fastavro.Logical.Calendar.{Day, epoch, ordinal, next_day, later, prepare_date-later}
use fastavro.Logical.Decimals.{read_decimal-prepare_bytes_decimal}
use fastavro.Logical.Fixed.{fixed_decimal_bytes_lem, fixed_bytes_negative_zero}
use fastavro.Tests.Samples.{platform}

abbrev money : Schema
money =
    annotated Primitive.bytes
      (record { logical_type = some (text "decimal"); scale = some 2; precision = some 6 })

leap_day_run : ordinal_from_isoformat (text "2020-02-29") ≡ ok 737_484
unfolding ordinal_from_isoformat
leap_day_run = refl

-- A leap day, and the last instant of the day before the epoch.
read_date-prepare_date_example :
    (prepare_date (object (date 737_484)) money
      ≡ ok (int (pos 737_484 -ℤ pos (ordinal_of_date 1970 1 1))))
    × (bind (prepare_date (object (date 737_484)) money) read_date ≡ ok (object (date 737_484)))
    × (prepare_date (object (naive (negsuc 0))) money ≡ ok (int (div_ℤ (negsuc 0) day_micros)))
    × (prepare_date (object (aware (negsuc 0) (pos 0))) money
        ≡ ok (int (div_ℤ (negsuc 0) day_micros)))
read_date-prepare_date_example =
    read_date-prepare_date 737_484 (negsuc 0) (pos 0) money (omega arith) (omega arith)

-- 59 days after the epoch, and 31 days before it.
abbrev december_1969 : Day
december_1969 = record { year = 1969; month = 12; day = 1 }

december_1969-later : later 31 december_1969 ≡ epoch
unfolding later next_day
december_1969-later = refl

prepare_date-later_example :
    (prepare_date (object (date (ordinal (later 59 epoch)))) money ≡ ok (int (pos 59)))
    × (prepare_date (object (date (ordinal december_1969))) money ≡ ok (int (neg (pos 31))))
prepare_date-later_example =
    prepare_date-later 59 31 december_1969 money
      (omega arith, omega arith, omega arith, omega arith, omega arith) december_1969-later

read_time_micros-prepare_time_micros_example :
    bind (prepare_time_micros (object (time 23 59 58 999_999)) money) read_time_micros
    ≡ ok (object (time 23 59 58 999_999))
read_time_micros-prepare_time_micros_example =
    read_time_micros-prepare_time_micros 23 59 58 999_999 money (omega arith) (omega arith)
      (omega arith) (omega arith)

read_time_millis-prepare_time_millis_example :
    bind (prepare_time_millis (object (time 23 59 58 999_999)) money) read_time_millis
    ≡ ok (object (time 23 59 58 999_000))
read_time_millis-prepare_time_millis_example =
    read_time_millis-prepare_time_millis 23 59 58 999_999 money (omega arith) (omega arith)
      (omega arith) (omega arith)

-- A microsecond before the epoch in UTC, an hour to the east.
read_timestamp_micros-prepare_timestamp_micros_example :
    (bind
        (prepare_timestamp_micros platform
          (object (aware (pos 3_599_999_999) (pos 3_600_000_000)))
          money)
        read_timestamp_micros
      ≡ ok (object (aware (pos 3_599_999_999 -ℤ pos 3_600_000_000) (pos 0))))
    × (bind
          (prepare_local_timestamp_micros (object (naive (pos 3_599_999_999))) money)
          read_local_timestamp_micros
        ≡ ok (object (naive (pos 3_599_999_999))))
unfolding ◌-ℤ◌ ◌+ℤ◌
read_timestamp_micros-prepare_timestamp_micros_example =
    read_timestamp_micros-prepare_timestamp_micros platform (pos 3_599_999_999) (pos 3_600_000_000)
      money refl refl

read_timestamp_millis-prepare_timestamp_millis_example :
    (bind
        (prepare_timestamp_millis platform
          (object (aware (pos 3_599_999_999) (pos 3_600_000_000)))
          money)
        read_timestamp_millis
      ≡ ok (object (aware (whole_millis (pos 3_599_999_999 -ℤ pos 3_600_000_000)) (pos 0))))
    × (bind
          (prepare_local_timestamp_millis (object (naive (pos 3_599_999_999))) money)
          read_local_timestamp_millis
        ≡ ok (object (naive (whole_millis (pos 3_599_999_999)))))
unfolding ◌-ℤ◌ ◌+ℤ◌
read_timestamp_millis-prepare_timestamp_millis_example =
    read_timestamp_millis-prepare_timestamp_millis platform (pos 3_599_999_999) (pos 3_600_000_000)
      money refl refl

-- -12.5 at scale 2.
read_decimal-prepare_bytes_decimal_example :
    bind
      (prepare_bytes_decimal (object (decimal true (1 ∷ 2 ∷ 5 ∷ []) (negsuc 0))) money)
      (λ d. read_decimal d money)
    ≡ ok (object (decimal true (1 ∷ 2 ∷ 5 ∷ 0 ∷ []) (negsuc 1)))
unfolding ◌+ℤ◌ ◌-ℤ◌ digits_value decimal_digits digits_upto
read_decimal-prepare_bytes_decimal_example =
    read_decimal-prepare_bytes_decimal money 6 1 true (1 ∷ 2 ∷ 5 ∷ []) (negsuc 0) refl (omega arith)
      (omega arith) refl (omega arith)

fixed_decimal_bytes_example :
    (b : Bytes) × (fixed_decimal_bytes 2 2 6 true (1 ∷ 2 ∷ 5 ∷ []) (negsuc 0) ≡ ok b)
    × (length b ≡ 2)
    × (from_signed_bytes b ≡ negsuc 1249)
unfolding ◌+ℤ◌ ◌-ℤ◌ digits_value bit_length bit_length_upto
fixed_decimal_bytes_example =
    fixed_decimal_bytes_lem 2 2 6 1 true (1 ∷ 2 ∷ 5 ∷ []) (negsuc 0) (omega arith) refl
      (omega arith) refl

fixed_bytes_negative_zero_example :
    (length (fixed_bytes 4 true 0) ≡ 4) × (from_signed_bytes (fixed_bytes 4 true 0) ≡ negsuc 1)
fixed_bytes_negative_zero_example = fixed_bytes_negative_zero 4 (omega arith)
