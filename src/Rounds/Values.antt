-- ===== src/Rounds/Values.antt =====
-- The conversions of values end: texts to bytes and back, and what becomes of a value that was read
-- (fastavro/_read_py.py).
use fastavro.Prelude.{
  ℕ, suc, ◌+◌, ◌-◌, ◌*◌, ◌^◌, Bool, List, [], ◌∷◌, ltb, leb, ◌==◌, if◌then◌else◌, Option, none,
  some,
}
use fastavro.Python.Errors.{Result, ok, err, bind, unicode_error, overflow_error}
use fastavro.Python.Errors.InRounds.{InRounds, InRounds-bind, InRounds-option, InRounds-if}
use fastavro.Python.Ints.{ℤ, pos, negsuc}
use fastavro.Python.Text.{
  Text, Bytes, is_surrogate, encode, encode_char, decode, decode_from, decode_step, Pending, idle,
  awaiting, Decoded, bad, emit, more,
}
use fastavro.Python.Floats.{float_of_int, float_of_ℕ, bit_length, round_shift}
use fastavro.Datum.{Datum, int, float, boolean, str, bytes, object, decimal, Platform, to_float}
use fastavro.Schema.{
  Schema, TypeName, Primitive, primitive, extract_record_type, extract_logical_type,
}
use fastavro.Context.{ReadContext}
use fastavro.Resolution.{maybe_promote}
use fastavro.Read.Data.{convert}

encode_char-InRounds : (c : ℕ) → InRounds (encode_char c)
unfolding encode_char InRounds
encode_char-InRounds c = InRounds-if (ltb c 0x80) (ok _) _ tt (
    InRounds-if (ltb c 0x800) (ok _) _ tt (
      InRounds-if (is_surrogate c) (err unicode_error) _ tt
        (InRounds-if (ltb c 0x10000) (ok _) (ok _) tt tt)))

encode-InRounds : (s : Text) → InRounds (encode s)
unfolding encode InRounds
encode-InRounds [] = tt
encode-InRounds (c ∷ s) =
    InRounds-bind (encode_char c) _ (encode_char-InRounds c)
      (λ b. InRounds-bind (encode s) _ (encode-InRounds s) (λ rest. tt))

decoded-InRounds :
    (d : Decoded) (bs : Bytes)
    → ((p : Pending) → InRounds (decode_from p bs))
    → InRounds (elim d [
      | bad ↦ err unicode_error
      | emit c ↦ bind (decode_from idle bs) (λ s. ok (c ∷ s))
      | more p' ↦ decode_from p' bs
    ])
unfolding InRounds
decoded-InRounds bad bs h = tt
decoded-InRounds (emit c) bs h = InRounds-bind (decode_from idle bs) _ (h idle) (λ s. tt)
decoded-InRounds (more p) bs h = h p

decode_from-InRounds : (p : Pending) (bs : Bytes) → InRounds (decode_from p bs)
unfolding decode_from InRounds
decode_from-InRounds idle [] = tt
decode_from-InRounds (awaiting n bits least) [] = tt
decode_from-InRounds p (b ∷ bs) =
    decoded-InRounds (decode_step p b) bs (λ q. decode_from-InRounds q bs)

pub decode-InRounds : (bs : Bytes) → InRounds (decode bs)
unfolding decode
decode-InRounds bs = decode_from-InRounds idle bs

float_of_ℕ-InRounds : (n : ℕ) → InRounds (float_of_ℕ n)
unfolding float_of_ℕ InRounds
float_of_ℕ-InRounds n =
    let len = bit_length n in
    let digits : ℕ = if leb len 53 then n * 2 ^ (53 - len) else round_shift n (len - 53) in
    let bits = (len + 1021) * 2 ^ 52 + digits in
    InRounds-if (n == 0) (ok 0) _ tt
      (InRounds-if (leb (2047 * 2 ^ 52) bits) (err overflow_error) (ok bits) tt tt)

float_of_int-InRounds : (n : ℤ) → InRounds (float_of_int n)
unfolding float_of_int InRounds
float_of_int-InRounds (pos n) = float_of_ℕ-InRounds n
float_of_int-InRounds (negsuc n) =
    InRounds-bind (float_of_ℕ (suc n)) _ (float_of_ℕ-InRounds (suc n)) (λ f. tt)

-- What the platform does ends, and so do the logical readers and the decoding of texts.
abbrev pub PlatformInRounds : Platform → Type 0
PlatformInRounds py =
    ((s : Text) → InRounds (py.float_of_text s))
    × ((s : Bool) (digits : List ℕ) (e : ℤ) → InRounds (py.float_of_decimal s digits e))

abbrev LogicalInRounds : Option (Datum → Schema → Option Schema → Result Datum) → Type 0
LogicalInRounds none = Unit
LogicalInRounds (some f) = (d : Datum) (s : Schema) (r : Option Schema) → InRounds (f d s r)

abbrev pub ContextInRounds : ReadContext → Type 0
ContextInRounds ctx =
    PlatformInRounds ctx.platform × ((lt : Text) → LogicalInRounds (ctx.logical_readers lt))

module _ (py : Platform) (h : PlatformInRounds py) where
  to_float-InRounds : (d : Datum) → InRounds (to_float py d)
  unfolding InRounds
  to_float-InRounds (str s) = h.0 s
  to_float-InRounds (float f) = tt
  to_float-InRounds (int n) = float_of_int-InRounds n
  to_float-InRounds (boolean b) = float_of_int-InRounds _
  to_float-InRounds (object (decimal s digits x)) = h.1 s digits x
  to_float-InRounds d = tt

  promoted-InRounds : (d : Datum) → InRounds (bind (to_float py d) (λ x. ok (float x)))
  unfolding InRounds
  promoted-InRounds d = InRounds-bind (to_float py d) _ (to_float-InRounds d) (λ x. tt)

  maybe_promote-InRounds : (d : Datum) (w r : TypeName) → InRounds (maybe_promote py d w r)
  unfolding maybe_promote InRounds
  maybe_promote-InRounds d (primitive Primitive.int) (primitive Primitive.float) =
      promoted-InRounds d
  maybe_promote-InRounds d (primitive Primitive.int) (primitive Primitive.double) =
      promoted-InRounds d
  maybe_promote-InRounds d (primitive Primitive.long) (primitive Primitive.float) =
      promoted-InRounds d
  maybe_promote-InRounds d (primitive Primitive.long) (primitive Primitive.double) =
      promoted-InRounds d
  maybe_promote-InRounds (str s) (primitive Primitive.string) (primitive Primitive.bytes) =
      InRounds-bind (encode s) _ (encode-InRounds s) (λ b. tt)
  maybe_promote-InRounds (bytes b) (primitive Primitive.bytes) (primitive Primitive.string) =
      InRounds-bind (decode b) _ (decode-InRounds b) (λ s. tt)
  maybe_promote-InRounds d _ _ = tt

logical-InRounds :
    (o : Option (Datum → Schema → Option Schema → Result Datum)) (promoted : Result Datum)
    (d : Datum) (s : Schema) (r : Option Schema)
    → LogicalInRounds o
    → InRounds promoted
    → InRounds (elim o [ none ↦ promoted | some f ↦ f d s r ])
logical-InRounds none promoted d s r h p = p
logical-InRounds (some f) promoted d s r h p = h d s r

promoted_to-InRounds :
    (py : Platform)
    → PlatformInRounds py
    → (s : Schema) (r : Option Schema) (d : Datum)
    → InRounds {A = Datum} (elim r [
      | none ↦ ok d
      | some rs ↦ maybe_promote py d (extract_record_type s) (extract_record_type rs)
    ])
unfolding InRounds
promoted_to-InRounds py h s none d = tt
promoted_to-InRounds py h s (some rs) d =
    maybe_promote-InRounds py h d (extract_record_type s) (extract_record_type rs)

pub convert-InRounds :
    (ctx : ReadContext)
    → ContextInRounds ctx
    → (s : Schema) (r : Option Schema) (d : Datum) → InRounds (convert ctx s r d)
unfolding convert
convert-InRounds ctx h s r d =
    InRounds-option (extract_logical_type s) _ _ (promoted_to-InRounds ctx.platform h.0 s r d)
      (λ lt.
        logical-InRounds (ctx.logical_readers lt) _ d s r (h.1 lt)
          (promoted_to-InRounds ctx.platform h.0 s r d))
