-- ===== src/Resolution/Reflexive.antt =====
-- A schema is resolved against itself.
use fastavro.Prelude.{ℕ, zero, suc, ◌≤◌, ◌≡◌, ◌==◌, ◌+◌, ◌*◌, refl, arith, true, false, Bool, List}
use fastavro.Python.Errors.{ok}
use fastavro.Schema.{
  Schema, prim, ref, union, annotated, array, map, fixed, enum, record_schema, extract_record_type,
  plain, error,
}
use fastavro.Schema.{primitive_text}
use fastavro.Python.Text.{Text}
use fastavro.Context.{ReadContext}
use fastavro.RoundTrip.Containers.{eq_text_refl}
use fastavro.Resolution.{match_names, match_types, match_schemas, names_match, unqualified}

-- How deep arrays and maps are nested.
unfoldable pub nesting : Schema → ℕ
nesting (array a s) = suc (nesting s)
nesting (map a s) = suc (nesting s)
nesting s = 0

abbrev is_union : Schema → Bool
is_union (union ss) = true
is_union s = false

eq_ℕ_refl : (n : ℕ) → (n == n) ≡ true
eq_ℕ_refl n = ground arith

module _ (ctx : ReadContext) where
  names_match_refl : (t : Text) (aliases : List Text) → names_match t t aliases ≡ true
  unfolding names_match
  names_match_refl t aliases = rw (eq_text_refl (unqualified t)) refl

  match_names_refl :
      (depth : ℕ) (s : Schema)
      → is_union s ≡ false
      → match_names ctx (suc depth) (extract_record_type s) (extract_record_type s) ≡ ok true
  unfolding match_names extract_record_type
  match_names_refl depth (prim p) h = rw (eq_text_refl (primitive_text p)) refl
  match_names_refl depth (annotated p a) h = rw (eq_text_refl (primitive_text p)) refl
  match_names_refl depth (ref name) h = rw (eq_text_refl name) refl
  match_names_refl depth (union ss) h = cc
  match_names_refl depth (array a s) h = refl
  match_names_refl depth (map a s) h = refl
  match_names_refl depth (fixed a name aliases size) h = refl
  match_names_refl depth (enum a name aliases symbols default) h = refl
  match_names_refl depth (record_schema a plain name aliases fs) h = refl
  match_names_refl depth (record_schema a error name aliases fs) h = refl

  match_types_refl :
      (depth : ℕ) (s : Schema)
      → match_schemas ctx (suc depth) s s ≡ ok s
      → match_types ctx (suc (suc depth)) s s ≡ ok true
  unfolding match_types
  match_types_refl depth (union ss) h = refl
  match_types_refl depth (prim p) h = match_names_refl depth (prim p) refl
  match_types_refl depth (ref name) h = match_names_refl depth (ref name) refl
  match_types_refl depth s h = rw h refl

  -- Resolving a schema against itself gives the schema, whatever the named schemas are, if the calls
  -- that Python has left are at least twice the nesting of arrays and maps, and two.
  pub match_schemas_refl :
      (depth : ℕ) (s : Schema) → nesting s * 2 + 2 ≤ depth → match_schemas ctx depth s s ≡ ok s
  unfolding match_schemas nesting
  match_schemas_refl zero s h = absurd (omega arith)
  match_schemas_refl (suc zero) s h = absurd (omega arith)
  match_schemas_refl (suc (suc depth)) (union ss) h = refl
  match_schemas_refl (suc (suc depth)) (prim p) h = rw (match_names_refl depth (prim p) refl) refl
  match_schemas_refl (suc (suc depth)) (annotated p a) h =
      rw (match_names_refl depth (annotated p a) refl) refl
  match_schemas_refl (suc (suc depth)) (ref name) h =
      rw (match_names_refl depth (ref name) refl) refl
  match_schemas_refl (suc (suc depth)) (fixed a name aliases size) h =
      rw (names_match_refl name aliases, eq_ℕ_refl size) refl
  match_schemas_refl (suc (suc depth)) (enum a name aliases symbols default) h =
      rw (names_match_refl name aliases) refl
  match_schemas_refl (suc (suc depth)) (record_schema a f name aliases fs) h =
      rw (names_match_refl name aliases) refl
  match_schemas_refl (suc (suc zero)) (array a s) h = absurd (omega arith)
  match_schemas_refl (suc (suc (suc depth))) (array a s) h =
      rw (match_types_refl depth s (match_schemas_refl (suc depth) s (omega arith))) refl
  match_schemas_refl (suc (suc zero)) (map a s) h = absurd (omega arith)
  match_schemas_refl (suc (suc (suc depth))) (map a s) h =
      rw (match_types_refl depth s (match_schemas_refl (suc depth) s (omega arith))) refl
