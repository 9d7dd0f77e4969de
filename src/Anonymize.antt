-- ===== src/Anonymize.antt =====
-- `_anonymize_schema` and `anonymize_field` (fastavro/utils.py), on parsed schemas. The hexadecimal digest
-- of `hashlib.md5` is an argument.
pub mod Names
use fastavro.Prelude.{List, [], ◌∷◌, ◌++◌, Option, none, some}
use fastavro.Python.Errors.{Result, ok, bind}
use fastavro.Python.Text.{Text, Bytes, text, encode}
use fastavro.Schema.{
  Schema, Schemas, Fields, Attrs, prim, ref, union, annotated, array, map, fixed, enum,
  record_schema, no_schemas, also, no_fields, field,
}

-- No property but those that are named below is taken over.
abbrev bare : Attrs
bare = record { logical_type = none; scale = none; precision = none }

-- `[f(t) for t in ts]`
unfoldable pub each : (Text → Result Text) → List Text → Result (List Text)
each f [] = ok []
each f (t ∷ ts) = bind (f t) (λ u. bind (each f ts) (λ us. ok (u ∷ us)))

module _ (hexdigest : Bytes → Text) where
  -- `_md5`, and what takes the place of a name.
  unfoldable pub md5 : Text → Result Text
  md5 string = bind (encode string) (λ bytes. ok (hexdigest bytes))

  unfoldable pub anonymous : Text → Result Text
  unfolding md5
  anonymous name = bind (md5 name) (λ hash. ok (text "A_" ++ hash))

  unfoldable mutual
    unfolding md5 anonymous each

    pub anonymize : Schema → Result Schema
    anonymize (prim p) = ok (prim p)
    anonymize (ref name) = bind (anonymous name) (λ n. ok (ref n))
    anonymize (union ss) = bind (anonymize_schemas ss) (λ ts. ok (union ts))
    anonymize (annotated p a) = ok (annotated p bare)
    anonymize (array a s) = bind (anonymize s) (λ t. ok (array bare t))
    anonymize (map a s) = bind (anonymize s) (λ t. ok (map bare t))
    anonymize (enum a name aliases symbols default) =
        bind (anonymous name)
          (λ n. bind (each anonymous symbols) (λ hashes. ok (enum bare n [] hashes none)))
    anonymize (fixed a name aliases size) = bind (anonymous name) (λ n. ok (fixed bare n [] size))
    anonymize (record_schema a f name aliases fs) =
        bind (anonymous name)
          (λ n. bind (anonymize_fields fs) (λ gs. ok (record_schema bare f n [] gs)))

    pub anonymize_schemas : Schemas → Result Schemas
    anonymize_schemas no_schemas = ok no_schemas
    anonymize_schemas (also s ss) =
        bind (anonymize s) (λ t. bind (anonymize_schemas ss) (λ ts. ok (also t ts)))

    -- The list of `anonymize_field` of each field.
    pub anonymize_fields : Fields → Result Fields
    anonymize_fields no_fields = ok no_fields
    anonymize_fields (field name s default aliases fs) = bind (each md5 aliases) (λ hashes.
        bind (md5 name) (λ n.
          bind (anonymize s)
            (λ t. bind (anonymize_fields fs) (λ gs. ok (field n t default hashes gs)))))
