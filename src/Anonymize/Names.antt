-- ===== src/Anonymize/Names.antt =====
-- An anonymized schema names its types and refers to them just as the schema does (fastavro/utils.py).
use fastavro.Prelude.{List, [], ◌∷◌, ◌++◌, ◌≡◌, refl, subst}
use fastavro.Python.Errors.{
  Result, ok, err, bind, bind-eq_ok, Holds, Holds-bind, Holds-after, Holds-ok,
}
use fastavro.Python.Text.{Text, Bytes}
use fastavro.Schema.{
  Schema, Schemas, Fields, prim, ref, union, annotated, array, map, fixed, enum, record_schema,
  no_schemas, also, no_fields, field,
}
use fastavro.Anonymize.{md5, anonymous, each, anonymize, anonymize_schemas, anonymize_fields}

-- The names in a schema, of the types that it defines and of those that it refers to, in their order.
unfoldable mutual
  pub mentioned : Schema → List Text
  mentioned (prim p) = []
  mentioned (ref name) = name ∷ []
  mentioned (union ss) = all_mentioned ss
  mentioned (annotated p a) = []
  mentioned (array a s) = mentioned s
  mentioned (map a s) = mentioned s
  mentioned (enum a name aliases symbols default) = name ∷ []
  mentioned (fixed a name aliases size) = name ∷ []
  mentioned (record_schema a f name aliases fs) = name ∷ fields_mentioned fs

  pub all_mentioned : Schemas → List Text
  all_mentioned no_schemas = []
  all_mentioned (also s ss) = mentioned s ++ all_mentioned ss

  pub fields_mentioned : Fields → List Text
  fields_mentioned no_fields = []
  fields_mentioned (field name s default aliases fs) = mentioned s ++ fields_mentioned fs

-- The others are what a function makes of the names, one by one.
abbrev pub Renames : (Text → Result Text) → List Text → List Text → Type 0
Renames f names others = each f names ≡ ok others

Renames-nil : (f : Text → Result Text) → Renames f [] []
unfolding each
Renames-nil f = refl

Renames-cons :
    (f : Text → Result Text) (x u : Text) (xs us : List Text)
    → f x ≡ ok u
    → Renames f xs us
    → Renames f (x ∷ xs) (u ∷ us)
unfolding each
Renames-cons f x u xs us p q = rw (p, q) refl

Renames-append :
    (f : Text → Result Text) (xs ys us vs : List Text)
    → Renames f xs us
    → Renames f ys vs
    → Renames f (xs ++ ys) (us ++ vs)
unfolding each
Renames-append f [] ys us vs p q =
    let none : [] ≡ us = cc in subst (λ ws. Renames f ys (ws ++ vs)) none q
Renames-append f (x ∷ xs) ys us vs p q =
    let (u, first, rest) = bind-eq_ok (f x) _ us p in
    let (ws, second, whole) = bind-eq_ok (each f xs) _ us rest in
    let same : u ∷ ws ≡ us = cc in
    subst (λ zs. Renames f (x ∷ (xs ++ ys)) (zs ++ vs)) same
      (Renames-cons f x u (xs ++ ys) (ws ++ vs) first (Renames-append f xs ys ws vs second q))

module _ (hexdigest : Bytes → Text) where
  -- A name in place of a name.
  anonymous-Holds :
      {A : Type 0} (P : A → Type 0) (name : Text) (k : Text → Result A)
      → ((n : Text) → anonymous hexdigest name ≡ ok n → Holds P (k n))
      → Holds P (bind (anonymous hexdigest name) k)
  unfolding Holds
  anonymous-Holds P name k h = by_result (anonymous hexdigest name) h
    where
      by_result : (r : Result Text) → ((n : Text) → r ≡ ok n → Holds P (k n)) → Holds P (bind r k)
      by_result (ok n) h = h n refl
      by_result (err e) h = tt

  mutual
    unfolding anonymize mentioned Holds

    schema-Holds :
        (s : Schema)
        → Holds
            (λ t. Renames (anonymous hexdigest) (mentioned s) (mentioned t))
            (anonymize hexdigest s)
    schema-Holds (prim p) = Renames-nil (anonymous hexdigest)
    schema-Holds (ref name) = anonymous-Holds _ name _ (λ n e.
        Renames-cons (anonymous hexdigest) name n [] [] e (Renames-nil (anonymous hexdigest)))
    schema-Holds (union ss) =
        Holds-bind _ _ (anonymize_schemas hexdigest ss) _ (schemas-Holds ss) (λ ts h. h)
    schema-Holds (annotated p a) = Renames-nil (anonymous hexdigest)
    schema-Holds (array a s) = Holds-bind _ _ (anonymize hexdigest s) _ (schema-Holds s) (λ t h. h)
    schema-Holds (map a s) = Holds-bind _ _ (anonymize hexdigest s) _ (schema-Holds s) (λ t h. h)
    schema-Holds (enum a name aliases symbols default) = anonymous-Holds _ name _ (λ n e.
        Holds-after _ (each (anonymous hexdigest) symbols) _ (λ hashes.
          Renames-cons (anonymous hexdigest) name n [] [] e (Renames-nil (anonymous hexdigest))))
    schema-Holds (fixed a name aliases size) = anonymous-Holds _ name _ (λ n e.
        Renames-cons (anonymous hexdigest) name n [] [] e (Renames-nil (anonymous hexdigest)))
    schema-Holds (record_schema a f name aliases fs) = anonymous-Holds _ name _ (λ n e.
        Holds-bind _ _ (anonymize_fields hexdigest fs) _ (fields-Holds fs) (λ gs h.
          Renames-cons (anonymous hexdigest) name n (fields_mentioned fs) (fields_mentioned gs) e
            h))

    schemas-Holds :
        (ss : Schemas)
        → Holds
            (λ ts. Renames (anonymous hexdigest) (all_mentioned ss) (all_mentioned ts))
            (anonymize_schemas hexdigest ss)
    schemas-Holds no_schemas = Renames-nil (anonymous hexdigest)
    schemas-Holds (also s ss) = Holds-bind _ _ (anonymize hexdigest s) _ (schema-Holds s) (λ t h.
        Holds-bind _ _ (anonymize_schemas hexdigest ss) _ (schemas-Holds ss) (λ ts k.
          Renames-append (anonymous hexdigest) (mentioned s) (all_mentioned ss) (mentioned t)
            (all_mentioned ts) h k))

    fields-Holds :
        (fs : Fields)
        → Holds
            (λ gs. Renames (anonymous hexdigest) (fields_mentioned fs) (fields_mentioned gs))
            (anonymize_fields hexdigest fs)
    fields-Holds no_fields = Renames-nil (anonymous hexdigest)
    fields-Holds (field name s default aliases fs) =
        Holds-after _ (each (md5 hexdigest) aliases) _ (λ hashes.
          Holds-after _ (md5 hexdigest name) _ (λ n.
            Holds-bind _ _ (anonymize hexdigest s) _ (schema-Holds s) (λ t h.
              Holds-bind _ _ (anonymize_fields hexdigest fs) _ (fields-Holds fs) (λ gs k.
                Renames-append (anonymous hexdigest) (mentioned s) (fields_mentioned fs)
                  (mentioned t) (fields_mentioned gs) h k))))

-- If a schema is anonymized, then the names in the result, of the types that it defines and of those
-- that it refers to, are the anonymous names of the names in the schema, in the same order, so that
-- what refers to a type still does.
pub mentioned-anonymize :
    (hexdigest : Bytes → Text) (s t : Schema)
    → anonymize hexdigest s ≡ ok t
    → each (anonymous hexdigest) (mentioned s) ≡ ok (mentioned t)
mentioned-anonymize hexdigest s t e =
    Holds-ok (λ u. Renames (anonymous hexdigest) (mentioned s) (mentioned u)) _ t
      (schema-Holds hexdigest s) e
