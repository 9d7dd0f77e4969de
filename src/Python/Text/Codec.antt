-- ===== src/Python/Text/Codec.antt =====
-- UTF-8: what `encode` wrote, `decode` reads back; and texts are compared correctly.
use fastavro.Prelude.{
  ℕ, ◌≢◌, Bool-cases, ◌+◌, ◌-◌, ◌*◌, ◌/◌, ◌%◌, ◌≤◌, ◌<◌, [], ◌∷◌, ◌++◌, ltb, if◌then◌else◌, ◌≡◌,
  refl, sym, ◌∙◌, arith, All, length, length-append, All-append, inl, inr,
}
use fastavro.Python.Errors.{ok, bind, bind-eq_ok}
use fastavro.Python.Text.{
  Text, Bytes, Pending, IsByte, encode_char, encode, idle, awaiting, emit, more, decode_step,
  finish_char, decode_from, decode, IsChar,
}

abbrev tail : ℕ → ℕ
tail x = 0x80 + x % 64

-- The bytes of one code point, by the length of its form.
abbrev char_bytes : ℕ → Bytes
char_bytes c =
    if ltb c 0x80
    then c ∷ []
    else if ltb c 0x800
    then (0xc0 + c / 64) ∷ tail c ∷ []
    else if ltb c 0x10000
    then (0xe0 + c / 4096) ∷ tail (c / 64) ∷ tail c ∷ []
    else (0xf0 + c / 262144) ∷ tail (c / 4096) ∷ tail (c / 64) ∷ tail c ∷ []

encode_char-char_bytes : (c : ℕ) → IsChar c → encode_char c ≡ ok (char_bytes c)
unfolding encode_char
encode_char-char_bytes c h = ground arith

char_bytes-IsByte : (c : ℕ) → IsChar c → All IsByte (char_bytes c)
char_bytes-IsByte c h = ground arith

-- One byte of a decoding, by what its step says.
decode_from-more :
    (p : Pending) (b : ℕ) (bs : Bytes) (q : Pending)
    → decode_step p b ≡ more q
    → decode_from p (b ∷ bs) ≡ decode_from q bs
unfolding decode_from
decode_from-more idle b bs q h = rw (h, decode_from)
decode_from-more (awaiting n bits least) b bs q h = rw (h, decode_from)

decode_from-emit :
    (p : Pending) (b : ℕ) (bs : Bytes) (c : ℕ)
    → decode_step p b ≡ emit c
    → decode_from p (b ∷ bs) ≡ bind (decode_from idle bs) (λ s. ok (c ∷ s))
unfolding decode_from
decode_from-emit idle b bs c h = rw (h, decode_from)
decode_from-emit (awaiting n bits least) b bs c h = rw (h, decode_from)

lead_one : (b : ℕ) → b < 0x80 → decode_step idle b ≡ emit b
unfolding decode_step
lead_one b h = ground arith

lead_two : (x : ℕ) → 2 ≤ x → x < 32 → decode_step idle (0xc0 + x) ≡ more (awaiting 1 x 0x80)
unfolding decode_step
lead_two x lo hi = ground arith

lead_three : (x : ℕ) → x < 16 → decode_step idle (0xe0 + x) ≡ more (awaiting 2 x 0x800)
unfolding decode_step
lead_three x hi = ground arith

lead_four : (x : ℕ) → x < 5 → decode_step idle (0xf0 + x) ≡ more (awaiting 3 x 0x10000)
unfolding decode_step
lead_four x hi = ground arith

next_tail :
    (n bits least x : ℕ)
    → n ≢ 1
    → decode_step (awaiting n bits least) (tail x)
      ≡ more (awaiting (n - 1) (bits * 64 + x % 64) least)
unfolding decode_step
next_tail n bits least x h = ground arith

last_tail :
    (bits least x c : ℕ)
    → c ≡ bits * 64 + x % 64
    → least ≤ c
    → IsChar c
    → decode_step (awaiting 1 bits least) (tail x) ≡ emit c
unfolding decode_step finish_char
last_tail bits least x c e lo h = ground arith

-- Whatever follows it, an encoded code point is decoded first.
decode-char_bytes :
    (c : ℕ) (bs : Bytes)
    → IsChar c
    → decode_from idle (char_bytes c ++ bs) ≡ bind (decode_from idle bs) (λ s. ok (c ∷ s))
decode-char_bytes c bs h = elim (Bool-cases (ltb c 0x80)) [
  | inl one ↦ rw one (decode_from-emit idle c bs c (lead_one c (ground arith)))
  | inr not_one ↦ rw not_one (elim (Bool-cases (ltb c 0x800)) [
    | inl two ↦ rw two (
        decode_from-more idle (0xc0 + c / 64) _ _ (lead_two (c / 64) (ground arith) (ground arith))
        ∙ decode_from-emit _ _ bs c (last_tail (c / 64) 0x80 c c (omega arith) (ground arith) h))
    | inr not_two ↦ rw not_two (elim (Bool-cases (ltb c 0x10000)) [
      | inl three ↦ rw three (
          decode_from-more idle (0xe0 + c / 4096) _ _ (lead_three (c / 4096) (ground arith))
          ∙ decode_from-more _ _ _ _ (next_tail 2 (c / 4096) 0x800 (c / 64) (omega arith))
          ∙ decode_from-emit _ _ bs c
              (last_tail (c / 4096 * 64 + c / 64 % 64) 0x800 c c (omega arith) (ground arith) h))
      | inr not_three ↦ rw not_three (
          decode_from-more idle (0xf0 + c / 262144) _ _
            (lead_four (c / 262144) (omega (arith, h.0)))
          ∙ decode_from-more _ _ _ _ (next_tail 3 (c / 262144) 0x10000 (c / 4096) (omega arith))
          ∙ decode_from-more _ _ _ _
              (next_tail 2 (c / 262144 * 64 + c / 4096 % 64) 0x10000 (c / 64) (omega arith))
          ∙ decode_from-emit _ _ bs c (
              last_tail ((c / 262144 * 64 + c / 4096 % 64) * 64 + c / 64 % 64) 0x10000 c c
                (omega arith) (ground arith) h))
    ])
  ])
]

-- Every text of encodable code points is encoded, and its bytes decode to it.
pub decode-encode :
    (s : Text) → All IsChar s → (b : Bytes) × (encode s ≡ ok b) × (decode b ≡ ok s) × All IsByte b
unfolding encode decode
decode-encode [] h = (([]), refl, unfold decode_from in refl, tt)
decode-encode (c ∷ s) (hc, hs) =
    let (b, e, d, y) = decode-encode s hs in
    (
      char_bytes c ++ b,
      rw (encode_char-char_bytes c hc, e),
      decode-char_bytes c b hc ∙ rw d,
      All-append IsByte (char_bytes c) b (char_bytes-IsByte c hc) y,
    )

-- UTF-8 takes four bytes at most for a code point.
length-encode_char : (c : ℕ) (b : Bytes) → encode_char c ≡ ok b → length b ≤ 4
unfolding encode_char
length-encode_char c b e = ground arith

pub length-encode : (s : Text) (b : Bytes) → encode s ≡ ok b → length b ≤ 4 * length s
unfolding encode
length-encode [] b e = let p : [] ≡ b = cc in rw (sym p) (omega arith)
length-encode (c ∷ s) b e =
    let (b1, e1, f) = bind-eq_ok (encode_char c) _ b e in
    let (b2, e2, g) = bind-eq_ok (encode s) _ b f in
    let p : b1 ++ b2 ≡ b = cc in
    rw (sym p, length-append) (omega (arith, length-encode_char c b1 e1, length-encode s b2 e2))
