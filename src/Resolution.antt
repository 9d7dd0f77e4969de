-- ===== src/Resolution.antt =====
-- Schema resolution: `match_types`, `match_schemas` and `maybe_promote` of fastavro/_read_py.py.
pub mod Reflexive
use fastavro.Prelude.{
  ℕ, zero, suc, Bool, true, false, not, ◌&&◌, ◌||◌, List, [], ◌∷◌, ◌==◌, if◌then◌else◌, Option,
  none, some,
}
use fastavro.Python.Errors.{Result, ok, err, bind, schema_resolution_error, recursion_error}
use fastavro.Python.Text.{Text, encode, decode, eq_text}
use fastavro.Datum.{Datum, float, str, bytes, to_float, Platform}
use fastavro.Schema.{
  Schema, Schemas, Primitive, TypeName, prim, ref, union, array, map, fixed, enum, record_schema,
  no_schemas, also, extract_record_type, contains_text, find_schema, is_avro_type, aliases?,
  primitive, named, primitive_text,
}
use fastavro.Context.{ReadContext}

abbrev pub eq_primitive : Primitive → Primitive → Bool
eq_primitive p q = eq_text (primitive_text p) (primitive_text q)

-- `writer_type == reader_type`, for two strings.
abbrev pub eq_type : TypeName → TypeName → Bool
eq_type (primitive p) (primitive q) = eq_primitive p q
eq_type TypeName.union TypeName.union = true
eq_type TypeName.array TypeName.array = true
eq_type TypeName.map TypeName.map = true
eq_type TypeName.fixed TypeName.fixed = true
eq_type TypeName.enum TypeName.enum = true
eq_type TypeName.record_type TypeName.record_type = true
eq_type TypeName.error_type TypeName.error_type = true
eq_type (named a) (named b) = eq_text a b
eq_type _ _ = false

-- The promotions: a writer's type that is read as another.
unfoldable pub promotes : TypeName → TypeName → Bool
promotes (primitive Primitive.int) (primitive Primitive.long) = true
promotes (primitive Primitive.int) (primitive Primitive.float) = true
promotes (primitive Primitive.int) (primitive Primitive.double) = true
promotes (primitive Primitive.long) (primitive Primitive.float) = true
promotes (primitive Primitive.long) (primitive Primitive.double) = true
promotes (primitive Primitive.float) (primitive Primitive.double) = true
promotes (primitive Primitive.string) (primitive Primitive.bytes) = true
promotes (primitive Primitive.bytes) (primitive Primitive.string) = true
promotes _ _ = false

abbrev pub lookup_type : List (Text × Schema) → TypeName → Option Schema
lookup_type table (named name) = find_schema name table
lookup_type table _ = none

-- `name.split(".")[-1]`
abbrev pub unqualified_from : Text → Text → Text
unqualified_from found [] = found
unqualified_from found (c ∷ s) = unqualified_from (if c == b'.' then s else found) s

abbrev pub unqualified : Text → Text
unqualified name = unqualified_from name name

-- Two named types: their last names agree, or the reader's aliases have the writer's name.
unfoldable pub names_match : Text → Text → List Text → Bool
names_match w_name r_name r_aliases =
    eq_text (unqualified w_name) (unqualified r_name)
    || (contains_text w_name r_aliases || contains_text (unqualified w_name) r_aliases)

abbrev pub matched : Bool → Schema → Result Schema
matched true r = ok r
matched false r = err schema_resolution_error

abbrev pub named_match : Schema → Schema → Text → Text → Result Schema
named_match w r w_name r_name = matched (names_match w_name r_name (aliases? r)) r

-- The name and the size of a named type in braces.
abbrev pub named_parts : Schema → Option (Text × Option ℕ)
named_parts (fixed a name aliases size) = some (name, some size)
named_parts (enum a name aliases symbols default) = some (name, none)
named_parts (record_schema a f name aliases fs) = some (name, none)
named_parts s = none

abbrev pub sizes_differ : Option ℕ → Option ℕ → Bool
sizes_differ (some m) (some n) = not (m == n)
sizes_differ _ _ = false

-- The first branch of the reader's union that matches.
unfoldable pub first_match : (Schema → Result Bool) → Schemas → Result Schema
first_match test no_schemas = err schema_resolution_error
first_match test (also s ss) =
    let rest = first_match test ss in bind (test s) (λ found. if found then ok s else rest)

abbrev pub as_union : Schema → Option Schemas
as_union (union ss) = some ss
as_union s = none

abbrev pub is_string : Schema → Bool
is_string (prim p) = true
is_string (ref name) = true
is_string s = false

-- `try: match_schemas(…) … except SchemaResolutionError: return False`
abbrev pub succeeds : Result Schema → Result Bool
succeeds (ok s) = ok true
succeeds (err schema_resolution_error) = ok false
succeeds (err e) = err e

-- What both types hold, where both are maps or both are arrays.
abbrev pub contents : Schema → Schema → Option (Schema × Schema)
contents (map a w) (map b r) = some (w, r)
contents (array a w) (array b r) = some (w, r)
contents w r = none

module _ (ctx : ReadContext) where
  -- The fuel is the depth of calls that Python has left.
  unfoldable mutual
    pub match_names : ℕ → TypeName → TypeName → Result Bool
    match_names zero w r = err recursion_error
    match_names (suc depth) w r =
        if eq_type w r || promotes w r then ok true else elim (lookup_type ctx.writer w) [
          | none ↦ ok false
          | some ws ↦ elim (lookup_type ctx.reader r) [
            | none ↦ ok false
            | some rs ↦ match_types depth ws rs
          ]
        ]

    pub match_types : ℕ → Schema → Schema → Result Bool
    match_types zero w r = err recursion_error
    match_types (suc depth) w r =
        let by_name = match_names depth (extract_record_type w) (extract_record_type r) in
        let by_schema = succeeds (match_schemas depth w r) in
        elim (as_union w) [
          | some ws ↦ ok true
          | none ↦ elim (as_union r) [
            | some rs ↦ ok true
            | none ↦ if is_string w && is_string r then by_name else by_schema
          ]
        ]

    pub match_schemas : ℕ → Schema → Schema → Result Schema
    match_schemas zero w r = err recursion_error
    match_schemas (suc depth) w r = elim (as_union w) [
      | some ws ↦ ok r
      | none ↦ elim (as_union r) [
        | some rs ↦ first_match (match_types depth w) rs
        | none ↦ elim (contents w r) [
          | some (wc, rc) ↦ bind (match_types depth wc rc) (λ b. matched b r)
          | none ↦ elim (named_parts r) [
            | none ↦
                bind (match_names depth (extract_record_type w) (extract_record_type r))
                  (λ b. matched b r)
            | some (r_name, r_size) ↦ elim (named_parts w) [
              | some (w_name, w_size) ↦
                  if sizes_differ w_size r_size
                  then err schema_resolution_error
                  else named_match w r w_name r_name
              | none ↦
                  if is_avro_type (extract_record_type w)
                  then bind (match_names depth (extract_record_type w) (extract_record_type r))
                      (λ b. matched b r)
                  else bind (match_names depth (extract_record_type w) (named r_name))
                      (λ b. matched b (ref r_name))
            ]
          ]
        ]
      ]
    ]

abbrev pub promoted_float : Platform → Datum → Result Datum
promoted_float py d = bind (to_float py d) (λ x. ok (float x))

-- `maybe_promote`: the value of a writer's type as one of the reader's.
unfoldable pub maybe_promote : Platform → Datum → TypeName → TypeName → Result Datum
maybe_promote py d (primitive Primitive.int) (primitive Primitive.float) = promoted_float py d
maybe_promote py d (primitive Primitive.int) (primitive Primitive.double) = promoted_float py d
maybe_promote py d (primitive Primitive.long) (primitive Primitive.float) = promoted_float py d
maybe_promote py d (primitive Primitive.long) (primitive Primitive.double) = promoted_float py d
maybe_promote py (str s) (primitive Primitive.string) (primitive Primitive.bytes) =
    bind (encode s) (λ b. ok (bytes b))
maybe_promote py (bytes b) (primitive Primitive.bytes) (primitive Primitive.string) =
    bind (decode b) (λ s. ok (str s))
maybe_promote py d _ _ = ok d
