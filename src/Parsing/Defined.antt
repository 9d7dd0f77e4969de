-- ===== src/Parsing/Defined.antt =====
-- The names that a parsed schema defines, and how a parse collects them (`names` of `_parse_schema`,
-- fastavro/_schema_py.py).
use fastavro.Prelude.{
  true, false, List, [], ◌∷◌, ◌++◌, ◌≡◌, refl, sym, ap, ◌∙◌, Bool-cases, inl, inr, append_assoc,
  append-nil, arith,
}
use fastavro.Python.Errors.{Holds}
use fastavro.Python.Text.{Text, eq_text}
use fastavro.Schema.{
  Schema, Schemas, Fields, contains_text, prim, ref, union, annotated, array, map, fixed, enum,
  record_schema, no_schemas, also, no_fields, field,
}
use fastavro.RoundTrip.Containers.{eq_text_comm}
use fastavro.Parsing.Names.{Parsing, define_name}
use fastavro.Parsing.Properties.{is_distinct}

-- The names of the types that a schema defines, from the outside in.
unfoldable mutual
  pub defined : Schema → List Text
  defined (prim p) = []
  defined (ref name) = []
  defined (union ss) = all_defined ss
  defined (annotated p a) = []
  defined (array a s) = defined s
  defined (map a s) = defined s
  defined (fixed a name aliases size) = name ∷ []
  defined (enum a name aliases symbols default) = name ∷ []
  defined (record_schema a f name aliases fs) = name ∷ fields_defined fs

  pub all_defined : Schemas → List Text
  all_defined no_schemas = []
  all_defined (also s ss) = defined s ++ all_defined ss

  pub fields_defined : Fields → List Text
  fields_defined no_fields = []
  fields_defined (field name s default aliases fs) = defined s ++ fields_defined fs

abbrev pub IsDistinct : List Text → Type 0
IsDistinct names = is_distinct names ≡ true

contains_text-append :
    (t u : Text) (ss : List Text)
    → contains_text t ss ≡ false
    → eq_text u t ≡ false
    → contains_text t (ss ++ (u ∷ [])) ≡ false
unfolding contains_text
contains_text-append t u [] h k = ground (arith, h, k)
contains_text-append t u (s ∷ ss) h k = ground (arith, h, k, contains_text-append t u ss)

IsDistinct-append :
    (ss : List Text) (t : Text)
    → IsDistinct ss
    → contains_text t ss ≡ false
    → IsDistinct (ss ++ (t ∷ []))
unfolding is_distinct contains_text
IsDistinct-append [] t d h = refl
IsDistinct-append (s ∷ ss) t d h =
    ground (arith, d, h, IsDistinct-append ss t, contains_text-append s t ss, eq_text_comm s t)

-- The names that are collected from one state to the next.
abbrev pub Defines : List Text → Parsing → Parsing → Type 0
Defines names st st' =
    (st'.names ≡ st.names ++ names) × (IsDistinct st.names → IsDistinct st'.names)

abbrev pub Registers : Parsing → Schema × Parsing → Type 0
Registers st r = Defines (defined r.0) st r.1

pub nothing_new : (st : Parsing) → Defines [] st st
nothing_new st = (sym (append-nil st.names), (λ h. h))

pub Defines-trans :
    (ns ms : List Text) (a b c : Parsing) → Defines ns a b → Defines ms b c → Defines (ns ++ ms) a c
Defines-trans ns ms a b c (p, f) (q, g) =
    (q ∙ ap (λ xs. xs ++ ms) p ∙ append_assoc a.names ns ms, (λ h. g (f h)))

pub define_name-Defines :
    (name : Text) (st : Parsing) → Holds (Defines (name ∷ []) st) (define_name name st)
unfolding define_name Holds
define_name-Defines name st = elim (Bool-cases (contains_text name st.names)) [
  | inl again ↦ rw again tt
  | inr new ↦ rw new (refl, (λ h. IsDistinct-append st.names name h new))
]
