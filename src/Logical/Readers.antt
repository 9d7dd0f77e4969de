-- ===== src/Logical/Readers.antt =====
-- fastavro/_logical_readers_py.py, with `LOGICAL_READERS`.
use fastavro.Prelude.{
  ℕ, suc, ◌+◌, ◌-◌, ◌*◌, ◌/◌, ◌%◌, ◌^◌, Bool, true, false, ◌||◌, List, ltb, ◌==◌, if◌then◌else◌,
  Option, none, some, length,
}
use fastavro.Python.Errors.{Result, ok, err, bind, value_error, type_error, attribute_error}
use fastavro.Python.Ints.{ℤ, pos, negsuc, ◌+ℤ◌, ◌-ℤ◌, ◌*ℤ◌, pos_part, neg_part}
use fastavro.Python.Text.{text, eq_text}
use fastavro.Python.Dates.{moment, date_from_ordinal, make_time, quot_ℤ, mod_ℤ}
use fastavro.Datum.{
  Datum, Platform, int, str, bytes, object, decimal, date, time, naive, aware, uuid,
}
use fastavro.Schema.{Schema}
use fastavro.Context.{LogicalReaders}
use fastavro.Logical.Digits.{decimal_digits, from_signed_bytes}
use fastavro.Logical.Writers.{
  days_shift, mls_per_second, mls_per_minute, mls_per_hour, mcs_per_second, mcs_per_minute,
  mcs_per_hour, scale_of, precision_of,
}

unfoldable pub read_timestamp_millis : Datum → Result Datum
read_timestamp_millis (int n) = bind (moment (n *ℤ pos 1000)) (λ t. ok (object (aware t (pos 0))))
read_timestamp_millis datum = err type_error

unfoldable pub read_local_timestamp_millis : Datum → Result Datum
read_local_timestamp_millis (int n) = bind (moment (n *ℤ pos 1000)) (λ t. ok (object (naive t)))
read_local_timestamp_millis datum = err type_error

unfoldable pub read_timestamp_micros : Datum → Result Datum
read_timestamp_micros (int n) = bind (moment n) (λ t. ok (object (aware t (pos 0))))
read_timestamp_micros datum = err type_error

unfoldable pub read_local_timestamp_micros : Datum → Result Datum
read_local_timestamp_micros (int n) = bind (moment n) (λ t. ok (object (naive t)))
read_local_timestamp_micros datum = err type_error

unfoldable pub read_date : Datum → Result Datum
read_date (int n) = bind (date_from_ordinal (n +ℤ days_shift)) (λ o. ok (object (date o)))
read_date datum = err type_error

-- `uuid.UUID(data)`, by its `str`.
unfoldable pub read_uuid : Platform → Datum → Result Datum
read_uuid py (str s) = bind (py.uuid_of_text s) (λ t. ok (object (uuid t)))
read_uuid py datum = err attribute_error

-- A number of more digits than the precision is rounded to that many, ties to even. `more` is the
-- number of the digits that are dropped.
abbrev pub round_half_even : ℕ → ℕ → ℕ
round_half_even n more =
    let q = n / 10 ^ more in
    let r = n % 10 ^ more in
    if ltb (10 ^ more) (2 * r) then q + 1 else if 2 * r == 10 ^ more then q + q % 2 else q

-- `decimal_context.create_decimal(n)` with its `prec` set: the digits and the exponent.
unfoldable pub create_decimal : ℕ → ℕ → List ℕ × ℕ
create_decimal precision n =
    let more = length (decimal_digits n) - precision in
    let rounded = round_half_even n more in
    if more == 0
    then (decimal_digits n, 0)
    else if rounded == 10 ^ precision
    then (decimal_digits (rounded / 10), suc more)
    else (decimal_digits rounded, more)

abbrev pub is_negative : ℤ → Bool
is_negative (pos n) = false
is_negative (negsuc n) = true

-- `.scaleb(-scale)` moves the exponent.
unfoldable pub read_decimal : Datum → Schema → Result Datum
read_decimal (bytes b) s = bind (precision_of s) (λ precision.
    let n = from_signed_bytes b in
    let (digits, exp) = create_decimal precision (pos_part n + neg_part n) in
    if precision == 0
    then err value_error
    else ok (object (decimal (is_negative n) digits (pos exp -ℤ pos (scale_of s)))))
read_decimal datum s = err type_error

abbrev pub time_object : ℕ × ℕ × ℕ × ℕ → Datum
time_object (h, m, s, us) = object (time h m s us)

-- `int(data / k) % 60`
abbrev pub sixtieth : ℤ → ℕ → ℕ
sixtieth n k = mod_ℤ (quot_ℤ n k) 60

unfoldable pub read_time_millis : Datum → Result Datum
read_time_millis (int n) =
    bind
      (make_time (quot_ℤ n mls_per_hour) (sixtieth n mls_per_minute) (sixtieth n mls_per_second)
        (mod_ℤ n mls_per_second * 1000))
      (λ t. ok (time_object t))
read_time_millis datum = err type_error

unfoldable pub read_time_micros : Datum → Result Datum
read_time_micros (int n) =
    bind
      (make_time (quot_ℤ n mcs_per_hour) (sixtieth n mcs_per_minute) (sixtieth n mcs_per_second)
        (mod_ℤ n mcs_per_second))
      (λ t. ok (time_object t))
read_time_micros datum = err type_error

-- The readers of times do not look at the schemas.
abbrev plain : (Datum → Result Datum) → Option (Datum → Schema → Option Schema → Result Datum)
plain f = some (λ datum w r. f datum)

unfoldable pub logical_readers : Platform → LogicalReaders
logical_readers py key =
    if eq_text key (text "long-timestamp-millis")
    then plain read_timestamp_millis
    else if eq_text key (text "long-local-timestamp-millis")
    then plain read_local_timestamp_millis
    else if eq_text key (text "long-timestamp-micros")
    then plain read_timestamp_micros
    else if eq_text key (text "long-local-timestamp-micros")
    then plain read_local_timestamp_micros
    else if eq_text key (text "int-date")
    then plain read_date
    else if eq_text key (text "bytes-decimal") || eq_text key (text "fixed-decimal")
    then some (λ datum w r. read_decimal datum w)
    else if eq_text key (text "string-uuid")
    then plain (read_uuid py)
    else if eq_text key (text "int-time-millis")
    then plain read_time_millis
    else if eq_text key (text "long-time-micros")
    then plain read_time_micros
    else none
