-- ===== src/Python/Text.antt =====
-- Python text: `str` as its code points, and `str.encode` and `bytes.decode` in UTF-8.
pub mod Codec
use Prim.Native.Char.{code}
use Prim.Native.String.{String}
use fastavro.Prelude.{
  ℕ, ◌+◌, ◌-◌, ◌*◌, ◌/◌, ◌%◌, ◌<◌, Bool, true, false, not, ◌&&◌, ◌||◌, List, [], ◌∷◌, ◌++◌, ltb,
  leb, ◌==◌, if◌then◌else◌, ◌≡◌,
}
use fastavro.Python.Errors.{Result, ok, err, bind, unicode_error}

abbrev pub Text : Type 0
Text = List ℕ

abbrev pub Bytes : Type 0
Bytes = List ℕ

-- A literal of the source.
abbrev pub text : String → Text
text String.[] = []
text (String.◌∷◌ c s) = code c ∷ text s

unfoldable pub eq_text : Text → Text → Bool
eq_text [] [] = true
eq_text (a ∷ s) (b ∷ t) = (a == b) && eq_text s t
eq_text [] (b ∷ t) = false
eq_text (a ∷ s) [] = false

unfoldable pub starts_with : Text → Text → Bool
starts_with [] t = true
starts_with (a ∷ s) [] = false
starts_with (a ∷ s) (b ∷ t) = (a == b) && starts_with s t

-- `s in t` for two strings.
unfoldable pub is_substring : Text → Text → Bool
unfolding starts_with
is_substring s [] = starts_with s []
is_substring s (b ∷ t) = starts_with s (b ∷ t) || is_substring s t

abbrev pub is_surrogate : ℕ → Bool
is_surrogate c = leb 0xd800 c && leb c 0xdfff

-- One code point in UTF-8; a surrogate cannot be encoded.
unfoldable pub encode_char : ℕ → Result Bytes
encode_char c =
    if ltb c 0x80
    then ok (c ∷ [])
    else if ltb c 0x800
    then ok ((0xc0 + c / 64) ∷ (0x80 + c % 64) ∷ [])
    else if is_surrogate c
    then err unicode_error
    else if ltb c 0x10000
    then ok ((0xe0 + c / 4096) ∷ (0x80 + c / 64 % 64) ∷ (0x80 + c % 64) ∷ [])
    else ok
        ((0xf0 + c / 262144) ∷ (0x80 + c / 4096 % 64) ∷ (0x80 + c / 64 % 64) ∷ (0x80 + c % 64) ∷ [])

-- `s.encode()`
unfoldable pub encode : Text → Result Bytes
unfolding encode_char
encode [] = ok []
encode (c ∷ s) = bind (encode_char c) (λ b. bind (encode s) (λ rest. ok (b ++ rest)))

-- The bytes of one code point that have been read: how many are to come, the bits so far, and the
-- least code point that a form of this length may stand for.
pub data Pending : Type 0 where
  idle : Pending
  awaiting : ℕ → ℕ → ℕ → Pending

pub data Decoded : Type 0 where
  bad : Decoded
  emit : ℕ → Decoded
  more : Pending → Decoded

-- A code point is accepted in its shortest form, below 0x110000 and outside the surrogates.
unfoldable pub finish_char : ℕ → ℕ → Decoded
finish_char least c =
    if leb least c && (ltb c 0x110000 && not (is_surrogate c)) then emit c else bad

unfoldable pub decode_step : Pending → ℕ → Decoded
decode_step idle b =
    if ltb b 0x80
    then emit b
    else if ltb b 0xc2
    then bad
    else if ltb b 0xe0
    then more (awaiting 1 (b - 0xc0) 0x80)
    else if ltb b 0xf0
    then more (awaiting 2 (b - 0xe0) 0x800)
    else if ltb b 0xf5
    then more (awaiting 3 (b - 0xf0) 0x10000)
    else bad
decode_step (awaiting n bits least) b =
    let bits' = bits * 64 + (b - 0x80) in
    if ltb b 0x80 || leb 0xc0 b
    then bad
    else if n == 1
    then finish_char least bits'
    else more (awaiting (n - 1) bits' least)

unfoldable pub decode_from : Pending → Bytes → Result Text
decode_from idle [] = ok []
decode_from (awaiting n bits least) [] = err unicode_error
decode_from p (b ∷ bs) = elim (decode_step p b) [
  | bad ↦ err unicode_error
  | emit c ↦ bind (decode_from idle bs) (λ s. ok (c ∷ s))
  | more p' ↦ decode_from p' bs
]

-- `b.decode()`, with the default `errors="strict"`.
unfoldable pub decode : Bytes → Result Text
unfolding decode_from
decode bs = decode_from idle bs

abbrev pub IsByte : ℕ → Type 0
IsByte b = b < 256

-- The code points of a text that UTF-8 can carry.
abbrev pub IsChar : ℕ → Type 0
IsChar c = (c < 0x110000) × (is_surrogate c ≡ false)
