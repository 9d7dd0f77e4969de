-- ===== src/Python/Files.antt =====
-- A file that is read (`io.BytesIO`), by the bytes that are left, and computations that read it.
use fastavro.Prelude.{[], take, drop}
use fastavro.Python.Errors.{Result, ok, bind}
use fastavro.Python.Ints.{ℤ, pos, negsuc}
use fastavro.Python.Text.{Bytes}

-- `fo.read(size)`: what was read and what is left. A negative size reads to the end.
abbrev pub read : ℤ → Bytes → Bytes × Bytes
read (pos n) fo = (take n fo, drop n fo)
read (negsuc n) fo = (fo, [])

abbrev pub Reader {ℓ} : Type ℓ → Type ℓ
Reader A = Bytes → Result (A × Bytes)

abbrev pub pure {ℓ} : {A : Type ℓ} → A → Reader A
pure a fo = ok (a, fo)

abbrev pub fail {ℓ} : {A : Type ℓ} → Result A → Reader A
fail r fo = bind r (λ a. ok (a, fo))

infixl 5 ◌>>=◌ ◌>>◌
abbrev pub ◌>>=◌ {ℓ κ} : {A : Type ℓ} {B : Type κ} → Reader A → (A → Reader B) → Reader B
◌>>=◌ m f fo = bind (m fo) (λ (a, rest). f a rest)

abbrev pub ◌>>◌ {ℓ κ} : {A : Type ℓ} {B : Type κ} → Reader A → Reader B → Reader B
m >> k = m >>= λ _. k
