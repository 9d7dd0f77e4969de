-- ===== src/Skipping/Follows.antt =====
-- A skip that follows a reader, and how such pairs are put together.
use fastavro.Prelude.{◌≡◌, ap, ◌∙◌}
use fastavro.Python.Errors.{Result, ok, bind-eq_ok}
use fastavro.Python.Text.{Bytes}
use fastavro.Python.Files.{Reader, pure, fail, ◌>>=◌}

-- Where the reader returns a value, the skip returns too, and leaves the same bytes.
abbrev pub Follows : {A : Type 0} → Reader A → Reader (Unit {0}) → Type 0
Follows {A} r t = (fo rest : Bytes) (a : A) → r fo ≡ ok (a, rest) → t fo ≡ ok (tt, rest)

-- What a reader returned, if two readers in turn did.
pub read_parts :
    {A B : Type 0} (r : Reader A) (k : A → Reader B) (fo rest : Bytes) (b : B)
    → (r >>= k) fo ≡ ok (b, rest)
    → (a : A) × (mid : Bytes) × (r fo ≡ ok (a, mid)) × (k a mid ≡ ok (b, rest))
read_parts r k fo rest b e =
    let ((a, mid), h, g) = bind-eq_ok (r fo) (λ (a, mid). k a mid) (b, rest) e in (a, mid, h, g)

module _ {A B : Type 0} (r : Reader A) (k : A → Reader B) where
  -- The skip of the one value, and then that of the other.
  pub follow_pair :
      {t u : Reader (Unit {0})}
      → Follows r t
      → ((a : A) → Follows (k a) u)
      → Follows (r >>= k) (t >>= λ _. u)
  follow_pair h g fo rest b e =
      let (a, mid, p, q) = read_parts r k fo rest b e in rw (h fo mid a p) (g a mid rest b q)

  -- Both begin by reading the same value.
  pub follow_same :
      {u : A → Reader (Unit {0})} → ((a : A) → Follows (k a) (u a)) → Follows (r >>= k) (r >>= u)
  follow_same g fo rest b e =
      let (a, mid, p, q) = read_parts r k fo rest b e in rw p (g a mid rest b q)

  -- What is computed from the value does not read on.
  pub follow_then :
      {t : Reader (Unit {0})}
      → Follows r t
      → ((a : A) (mid rest : Bytes) (b : B) → k a mid ≡ ok (b, rest) → mid ≡ rest)
      → Follows (r >>= k) t
  follow_then h g fo rest b e =
      let (a, mid, p, q) = read_parts r k fo rest b e in
      h fo mid a p ∙ ap (λ (x : Bytes). ok (tt, x)) (g a mid rest b q)

-- A computation that does not read leaves what there was.
pub fail-rest :
    {A : Type 0} (m : Result A) (mid rest : Bytes) (a : A) → fail m mid ≡ ok (a, rest) → mid ≡ rest
fail-rest m mid rest a e = let (x, h, g) = bind-eq_ok m _ (a, rest) e in cc

pub pure-rest : {A : Type 0} (a a' : A) (mid rest : Bytes) → pure a mid ≡ ok (a', rest) → mid ≡ rest
pure-rest a a' mid rest e = cc
