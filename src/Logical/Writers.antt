-- ===== src/Logical/Writers.antt =====
-- fastavro/_logical_writers_py.py, with `LOGICAL_WRITERS`.
use fastavro.Prelude.{
  ℕ, zero, suc, ◌+◌, ◌-◌, ◌*◌, ◌/◌, ◌%◌, ◌^◌, bit_or, bit_xor, Bool, List, ◌++◌, ltb, ◌==◌,
  if◌then◌else◌, none, some, length, replicate,
}
use fastavro.Python.Errors.{Result, ok, err, bind, from_option, value_error, key_error}
use fastavro.Python.Ints.{ℤ, pos, ◌+ℤ◌, ◌-ℤ◌, ◌*ℤ◌, neg, ltb_ℤ, pos_part}
use fastavro.Python.Text.{Bytes, text, eq_text}
use fastavro.Python.Floats.{bit_length}
use fastavro.Python.Dates.{
  Delta, delta_of, div_ℤ, mod_ℤ, ordinal_of, epoch_ordinal, ordinal_from_isoformat,
}
use fastavro.Datum.{
  Datum, Platform, int, str, bytes, object, decimal, date, time, naive, aware, uuid,
}
use fastavro.Schema.{Schema, attrs, fixed}
use fastavro.Context.{LogicalWriters}
use fastavro.Logical.Digits.{digits_value, big_bytes, to_signed_bytes}

abbrev pub mls_per_second : ℕ
mls_per_second = 1000

abbrev pub mls_per_minute : ℕ
mls_per_minute = mls_per_second * 60

abbrev pub mls_per_hour : ℕ
mls_per_hour = mls_per_minute * 60

abbrev pub mcs_per_second : ℕ
mcs_per_second = 1_000_000

abbrev pub mcs_per_minute : ℕ
mcs_per_minute = mcs_per_second * 60

abbrev pub mcs_per_hour : ℕ
mcs_per_hour = mcs_per_minute * 60

abbrev pub days_shift : ℤ
days_shift = pos epoch_ordinal

-- `(delta.days * 24 * 3600 + delta.seconds) * unit + …`
unfoldable pub delta_in : ℕ → Delta → ℕ → ℤ
delta_in unit delta fraction =
    (delta.days *ℤ pos 24 *ℤ pos 3600 +ℤ pos delta.seconds) *ℤ pos unit +ℤ pos fraction

abbrev pub delta_millis : ℤ → ℤ
delta_millis t = let delta = delta_of t in delta_in mls_per_second delta (delta.microseconds / 1000)

abbrev pub delta_micros : ℤ → ℤ
delta_micros t = let delta = delta_of t in delta_in mcs_per_second delta delta.microseconds

-- A local time without a zone, by `time.mktime` on the whole seconds.
abbrev local_millis : Platform → ℤ → ℤ
local_millis py t =
    if py.is_windows
    then delta_millis t
    else py.mktime (div_ℤ t 1_000_000) *ℤ pos mls_per_second +ℤ pos (mod_ℤ t 1_000_000 / 1000)

abbrev local_micros : Platform → ℤ → ℤ
local_micros py t =
    if py.is_windows
    then delta_micros t
    else py.mktime (div_ℤ t 1_000_000) *ℤ pos mcs_per_second +ℤ pos (mod_ℤ t 1_000_000)

unfoldable pub prepare_timestamp_millis : Platform → Datum → Schema → Result Datum
prepare_timestamp_millis py (object (aware t offset)) s = ok (int (delta_millis (t -ℤ offset)))
prepare_timestamp_millis py (object (naive t)) s = ok (int (local_millis py t))
prepare_timestamp_millis py datum s = ok datum

unfoldable pub prepare_local_timestamp_millis : Datum → Schema → Result Datum
prepare_local_timestamp_millis (object (aware t offset)) s = ok (int (delta_millis t))
prepare_local_timestamp_millis (object (naive t)) s = ok (int (delta_millis t))
prepare_local_timestamp_millis datum s = ok datum

unfoldable pub prepare_timestamp_micros : Platform → Datum → Schema → Result Datum
prepare_timestamp_micros py (object (aware t offset)) s = ok (int (delta_micros (t -ℤ offset)))
prepare_timestamp_micros py (object (naive t)) s = ok (int (local_micros py t))
prepare_timestamp_micros py datum s = ok datum

unfoldable pub prepare_local_timestamp_micros : Datum → Schema → Result Datum
prepare_local_timestamp_micros (object (aware t offset)) s = ok (int (delta_micros t))
prepare_local_timestamp_micros (object (naive t)) s = ok (int (delta_micros t))
prepare_local_timestamp_micros datum s = ok datum

-- A datetime is a date as well.
unfoldable pub prepare_date : Datum → Schema → Result Datum
prepare_date (object (date o)) s = ok (int (pos o -ℤ days_shift))
prepare_date (object (aware t offset)) s = ok (int (ordinal_of t -ℤ days_shift))
prepare_date (object (naive t)) s = ok (int (ordinal_of t -ℤ days_shift))
prepare_date (str text) s = bind (ordinal_from_isoformat text) (λ o. ok (int (pos o -ℤ days_shift)))
prepare_date datum s = ok datum

-- `schema.get("scale", 0)`, `schema["precision"]` and `schema["size"]`.
abbrev pub scale_of : Schema → ℕ
scale_of s = elim (attrs s) [ none ↦ 0 | some a ↦ elim a.scale [ none ↦ 0 | some n ↦ n ] ]

abbrev pub precision_of : Schema → Result ℕ
precision_of s = elim (attrs s) [
  | none ↦ err key_error
  | some a ↦ from_option key_error a.precision
]

abbrev pub size_of : Schema → Result ℕ
size_of (fixed a name aliases size) = ok size
size_of s = err key_error

abbrev pub signed : Bool → ℕ → ℤ
signed sign n = if sign then neg (pos n) else pos n

-- The bytes of a decimal, of any number; the scale is the exponent's.
unfoldable pub decimal_bytes : ℕ → ℕ → Bool → List ℕ → ℤ → Result Bytes
decimal_bytes scale precision sign digits exp =
    let delta = exp +ℤ pos scale in
    let unscaled = 10 ^ pos_part delta * digits_value 0 digits in
    let bytes_req = (bit_length unscaled + 8) / 8 in
    if ltb precision (length digits)
    then err value_error
    else if ltb_ℤ delta (pos 0)
    then err value_error
    else to_signed_bytes bytes_req (signed sign unscaled)

unfoldable pub prepare_bytes_decimal : Datum → Schema → Result Datum
prepare_bytes_decimal (object (decimal sign digits exp)) s =
    bind (precision_of s)
      (λ precision. bind (decimal_bytes (scale_of s) precision sign digits exp) (λ b. ok (bytes b)))
prepare_bytes_decimal datum s = ok datum

-- `for i in range(bits_req): mask ^= bit; bit <<= 1`
unfoldable pub clear_bits : ℕ → ℕ → ℕ → ℕ
clear_bits zero mask bit = mask
clear_bits (suc n) mask bit = clear_bits n (bit_xor mask bit) (bit * 2)

-- `bits_req // 8`, rounded up, and 1 at least.
abbrev pub bytes_for : ℕ → ℕ
bytes_for bits_req =
    if ltb bits_req 8 then 1 else if bits_req % 8 == 0 then bits_req / 8 else bits_req / 8 + 1

unfoldable pub fixed_bytes : ℕ → Bool → ℕ → Bytes
fixed_bytes size sign unscaled =
    let bits_req = bit_length unscaled + 1 in
    let size_in_bits = size * 8 in
    let mask = clear_bits bits_req (2 ^ size_in_bits - 1) 1 in
    if sign
    then big_bytes size (bit_or mask (2 ^ bits_req - unscaled))
    else replicate ((size_in_bits - bits_req) / 8) 0 ++ big_bytes (bytes_for bits_req) unscaled

unfoldable pub fixed_decimal_bytes : ℕ → ℕ → ℕ → Bool → List ℕ → ℤ → Result Bytes
fixed_decimal_bytes scale size precision sign digits exp =
    let zeros = replicate (pos_part (exp +ℤ pos scale)) 0 in
    if ltb precision (length digits)
    then err value_error
    else if ltb_ℤ (pos scale) (neg exp)
    then err value_error
    else ok (fixed_bytes size sign (digits_value 0 (digits ++ zeros)))

unfoldable pub prepare_fixed_decimal : Datum → Schema → Result Datum
prepare_fixed_decimal (object (decimal sign digits exp)) s = bind (size_of s) (λ size.
    bind (precision_of s) (λ precision.
      bind (fixed_decimal_bytes (scale_of s) size precision sign digits exp) (λ b. ok (bytes b))))
prepare_fixed_decimal datum s = ok datum

unfoldable pub prepare_uuid : Datum → Schema → Result Datum
prepare_uuid (object (uuid text)) s = ok (str text)
prepare_uuid datum s = ok datum

unfoldable pub prepare_time_millis : Datum → Schema → Result Datum
prepare_time_millis (object (time hour minute second microsecond)) s = ok (
    int (
      pos (
        hour * mls_per_hour
        + minute * mls_per_minute
        + second * mls_per_second
        + microsecond / 1000)))
prepare_time_millis datum s = ok datum

unfoldable pub prepare_time_micros : Datum → Schema → Result Datum
prepare_time_micros (object (time hour minute second microsecond)) s = ok (
    int
      (pos (hour * mcs_per_hour + minute * mcs_per_minute + second * mcs_per_second + microsecond)))
prepare_time_micros datum s = ok datum

unfoldable pub logical_writers : Platform → LogicalWriters
logical_writers py key =
    if eq_text key (text "long-timestamp-millis")
    then some (prepare_timestamp_millis py)
    else if eq_text key (text "long-local-timestamp-millis")
    then some prepare_local_timestamp_millis
    else if eq_text key (text "long-timestamp-micros")
    then some (prepare_timestamp_micros py)
    else if eq_text key (text "long-local-timestamp-micros")
    then some prepare_local_timestamp_micros
    else if eq_text key (text "int-date")
    then some prepare_date
    else if eq_text key (text "bytes-decimal")
    then some prepare_bytes_decimal
    else if eq_text key (text "fixed-decimal")
    then some prepare_fixed_decimal
    else if eq_text key (text "string-uuid")
    then some prepare_uuid
    else if eq_text key (text "int-time-millis")
    then some prepare_time_millis
    else if eq_text key (text "long-time-micros")
    then some prepare_time_micros
    else none
