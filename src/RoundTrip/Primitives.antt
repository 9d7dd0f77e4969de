-- ===== src/RoundTrip/Primitives.antt =====
-- Primitive values in the binary format, one writer against one reader.
use fastavro.Prelude.{
  ℕ, zero, suc, ◌*◌, ◌/◌, ◌^◌, ◌<◌, Bool, true, false, [], ◌∷◌, ◌++◌, ◌≡◌, refl, ap, arith, length,
  take_front, drop_front, take-length_append, drop-length_append, All, ◌==◌,
}
use fastavro.Python.Errors.{ok, wrote, output}
use fastavro.Python.Ints.{ℤ, pos}
use fastavro.Python.Text.{Text, Bytes, encode, decode, IsChar}
use fastavro.Python.Text.Codec.{decode-encode, length-encode}
use fastavro.Python.Floats.{single_of_double, double_of_single, to_bytes, from_bytes}
use fastavro.Python.Files.{fail}
use fastavro.Datum.{Datum, Platform}
use fastavro.Schema.{Primitive}
use fastavro.Context.{WriteContext, default_read_options}
use fastavro.Binary.Encoder.{
  write_null, write_boolean, write_int, write_long, write_float, write_double, write_bytes,
  write_utf8, write_raw,
}
use fastavro.Binary.Decoder.{
  read_null, read_boolean, read_long, unpack, read_float, read_double, read_bytes, read_utf8,
}
use fastavro.Binary.Varint.{IsLong, read_long-write_long, write_long-eq_wrote}
use fastavro.Write.Data.{write_primitive}
use fastavro.Read.Values.{read_primitive}
use native.Mathlib.Nat.{pow-suc}
use fastavro.RoundTrip.Transmits.{
  transmit_nothing, Transmits, transmit_then, transmit_pair, transmit_writer,
}

pub transmit_long : (n : ℤ) → IsLong n → Transmits (write_long n) read_long n
transmit_long n h =
    (output (write_long n), write_long-eq_wrote n, λ rest. read_long-write_long n rest h)

eq_ℕ_refl : (n : ℕ) → (n == n) ≡ true
eq_ℕ_refl n = ground arith

pub transmit_bytes :
    (b : Bytes) → length b < 2 ^ 63 → Transmits (write_bytes (Datum.bytes b)) read_bytes b
unfolding write_bytes write_raw read_bytes
transmit_bytes b h = transmit_pair read_long _ (transmit_long (pos (length b)) (h, omega arith)) (
  b,
  refl,
  λ rest. rw (take-length_append b rest, drop-length_append b rest, eq_ℕ_refl (length b)),
)

pub transmit_text :
    (s : Text) (b : Bytes)
    → All IsChar s
    → encode s ≡ ok b
    → length b < 2 ^ 63
    → Transmits (write_utf8 (Datum.str s)) (read_utf8 decode) s
unfolding write_utf8 read_utf8
transmit_text s b h e hb =
    let (b', e', d, y) = decode-encode s h in
    let same : b ≡ b' = cc in
    transmit_writer {w' = write_bytes (Datum.bytes b)} (read_utf8 decode) (rw e)
      (transmit_then read_bytes (λ b. fail (decode b)) (transmit_bytes b hb) (λ rest. rw (same, d)))

-- Every text of fewer than 2 ^ 61 code points, all of which UTF-8 can carry, is written
-- without an exception, and the bytes that were written are read back as that text, with whatever
-- follows them left over.
pub read_utf8-write_utf8 :
    (s : Text) (rest : Bytes)
    → All IsChar s
    → 4 * length s < 2 ^ 63
    → (write_utf8 (Datum.str s) ≡ wrote (output (write_utf8 (Datum.str s))))
      × (read_utf8 decode (output (write_utf8 (Datum.str s)) ++ rest) ≡ ok (s, rest))
read_utf8-write_utf8 s rest h size =
    let (b, e, d, y) = decode-encode s h in
    let (out, w, r) = transmit_text s b h e (omega (arith, length-encode s b e, size)) in
    rw w (refl, r rest)

length-to_bytes : (size n : ℕ) → length (to_bytes size n) ≡ size
unfolding to_bytes
length-to_bytes zero n = refl
length-to_bytes (suc size) n = ap suc (length-to_bytes size (n / 256))

pub from_bytes-to_bytes : (size n : ℕ) → n < 256 ^ size → from_bytes (to_bytes size n) ≡ n
unfolding to_bytes from_bytes
from_bytes-to_bytes zero n h = omega arith
from_bytes-to_bytes (suc size) n h = omega (
  arith,
  from_bytes-to_bytes size (n / 256)
      (below_quotient (256 ^ size) (omega (arith, pow-suc 256 size))),
)
  where
    below_quotient : (m : ℕ) → n < m * 256 → n / 256 < m
    below_quotient m k = omega arith

unpack-to_bytes :
    (size n : ℕ) (rest : Bytes)
    → n < 256 ^ size
    → unpack size (to_bytes size n ++ rest) ≡ ok (n, rest)
unfolding unpack
unpack-to_bytes size n rest h =
    let fits = length-to_bytes size n in
    rw (take_front (to_bytes size n) rest size fits, drop_front (to_bytes size n) rest size fits)
      (rw (fits, eq_ℕ_refl size, from_bytes-to_bytes size n h))

-- What a schema's primitive type holds, so that it is written without a loss. An `int` is not held to
-- its 32 bits; a `float` is one that 32 bits can hold; a text has code points that UTF-8 can carry.
pub data FitsPrimitive : Primitive → Datum → Type 0 where
  null : FitsPrimitive Primitive.null Datum.null
  boolean : (b : Bool) → FitsPrimitive Primitive.boolean (Datum.boolean b)
  int : (n : ℤ) → IsLong n → FitsPrimitive Primitive.int (Datum.int n)
  long : (n : ℤ) → IsLong n → FitsPrimitive Primitive.long (Datum.int n)
  float :
      (x w : ℕ)
      → single_of_double x ≡ ok w
      → double_of_single w ≡ x
      → w < 2 ^ 32
      → FitsPrimitive Primitive.float (Datum.float x)
  double : (x : ℕ) → x < 2 ^ 64 → FitsPrimitive Primitive.double (Datum.float x)
  string :
      (s : Text) (b : Bytes)
      → All IsChar s
      → encode s ≡ ok b
      → length b < 2 ^ 63
      → FitsPrimitive Primitive.string (Datum.str s)
  bytes : (b : Bytes) → length b < 2 ^ 63 → FitsPrimitive Primitive.bytes (Datum.bytes b)

transmit_boolean : (b : Bool) → Transmits (write_boolean (Datum.boolean b)) read_boolean b
unfolding write_boolean read_boolean
transmit_boolean true = (1 ∷ [], refl, λ rest. refl)
transmit_boolean false = (0 ∷ [], refl, λ rest. refl)

module _ (py : Platform) where
  transmit_float :
      (x w : ℕ)
      → single_of_double x ≡ ok w
      → double_of_single w ≡ x
      → w < 2 ^ 32
      → Transmits (write_float py (Datum.float x)) read_float x
  unfolding write_float read_float
  transmit_float x w e e' h = (to_bytes 4 w, rw e, λ rest. rw (unpack-to_bytes 4 w rest h) (rw e'))

  transmit_double : (x : ℕ) → x < 2 ^ 64 → Transmits (write_double py (Datum.float x)) read_double x
  unfolding write_double read_double
  transmit_double x h = (to_bytes 8 x, refl, λ rest. unpack-to_bytes 8 x rest h)

-- Each primitive value that fits is written, and read back with what follows left over.
pub transmit_primitive :
    (ctx : WriteContext) {p : Primitive} {d : Datum}
    → FitsPrimitive p d
    → Transmits (write_primitive ctx p d) (read_primitive default_read_options p) d
unfolding write_primitive read_primitive write_null read_null write_int write_long
transmit_primitive ctx null = transmit_nothing Datum.null
transmit_primitive ctx (boolean b) =
    transmit_then read_boolean _ (transmit_boolean b) (λ rest. refl)
transmit_primitive ctx (int n h) = transmit_then read_long _ (transmit_long n h) (λ rest. refl)
transmit_primitive ctx (long n h) = transmit_then read_long _ (transmit_long n h) (λ rest. refl)
transmit_primitive ctx (float x w e e' h) =
    transmit_then read_float _ (transmit_float ctx.platform x w e e' h) (λ rest. refl)
transmit_primitive ctx (double x h) =
    transmit_then read_double _ (transmit_double ctx.platform x h) (λ rest. refl)
transmit_primitive ctx (string s b h e hb) =
    transmit_then (read_utf8 decode) _ (transmit_text s b h e hb) (λ rest. refl)
transmit_primitive ctx (bytes b h) = transmit_then read_bytes _ (transmit_bytes b h) (λ rest. refl)
