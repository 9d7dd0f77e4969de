-- ===== src/RoundTrip/Transmits.antt =====
-- A writer and a reader that fit one another, and how such pairs are put together.
use fastavro.Prelude.{[], ◌++◌, ◌≡◌, refl, ◌∙◌, append_assoc}
use fastavro.Python.Errors.{ok, Written, wrote, raised, ◌>>◌}
use fastavro.Python.Text.{Bytes}
use fastavro.Python.Files.{Reader, pure, ◌>>=◌}

-- The write ends without an exception, and whatever follows its bytes the reader takes just these
-- and returns the value.
abbrev pub Transmits : {A : Type 0} → Written → Reader A → A → Type 0
Transmits w r a =
    (out : Bytes) × (w ≡ wrote out) × ((rest : Bytes) → r (out ++ rest) ≡ ok (a, rest))

pub nothing_before : (w : Written) → (wrote [] >> w) ≡ w
nothing_before (wrote out) = refl
nothing_before (raised e out) = refl

pub then_assoc : (a b c : Written) → (a >> (b >> c)) ≡ ((a >> b) >> c)
then_assoc (raised e x) b c = refl
then_assoc (wrote x) (raised e y) c = refl
then_assoc (wrote x) (wrote y) (wrote z) = rw append_assoc
then_assoc (wrote x) (wrote y) (raised e z) = rw append_assoc

module _ {A : Type 0} where
  pub transmit_nothing : (a : A) → Transmits (wrote []) (pure a) a
  transmit_nothing a = ([], refl, λ rest. refl)

  -- The writer or the reader may be replaced by an equal one.
  pub transmit_writer :
      {w w' : Written} {a : A} (r : Reader A) → w ≡ w' → Transmits w' r a → Transmits w r a
  transmit_writer r p (out, e, h) = (out, p ∙ e, h)

  pub transmit_reader :
      {w : Written} {a : A} {r r' : Reader A}
      → ((fo : Bytes) → r fo ≡ r' fo)
      → Transmits w r' a
      → Transmits w r a
  transmit_reader p (out, e, h) = (out, e, λ rest. p (out ++ rest) ∙ h rest)

module _ {A B : Type 0} (r : Reader A) (k : A → Reader B) where
  -- What follows a value without reading on.
  pub transmit_then :
      {w : Written} {a : A} {b : B}
      → Transmits w r a
      → ((rest : Bytes) → k a rest ≡ ok (b, rest))
      → Transmits w (r >>= k) b
  transmit_then (out, e, h) g = (out, e, λ rest. rw (h rest) (g rest))

  -- One write after another, read in that order.
  pub transmit_pair :
      {w w' : Written} {a : A} {b : B}
      → Transmits w r a
      → Transmits w' (k a) b
      → Transmits (w >> w') (r >>= k) b
  transmit_pair {w} {w'} {a} {b} (out, e, h) (out', e', h') =
      (out ++ out', rw (e, e'), λ rest. rw append_assoc (rw (h (out' ++ rest)) (h' rest)))
