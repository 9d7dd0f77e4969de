-- ===== src/Write/Unions.antt =====
-- fastavro/_write_py.py: `write_union`, which chooses a branch for a datum and writes its index.
use fastavro.Prelude.{
  ℕ, suc, ◌+◌, Bool, true, false, not, ◌&&◌, ◌||◌, ltb, if◌then◌else◌, Option, none, some,
}
use fastavro.Python.Errors.{
  Result, ok, bind, from_option, Written, ◌>>=◌, ◌>>◌, value_error, index_error,
}
use fastavro.Python.Text.{Text}
use fastavro.Datum.{Datum, Items, nil, cons, tuple, iterate, is_text}
use fastavro.Schema.{
  has_field, Schema, Schemas, Fields, Primitive, TypeName, ref, record_schema, plain, no_schemas,
  also, no_fields, field, type_text, extract_record_type, find_schema, get_schema, name?, primitive,
}
use fastavro.Context.{WriteContext, WriteOptions}
use fastavro.Validation.{prepare, unpair}
use fastavro.Binary.Encoder.{write_index}
use fastavro.Write.Values.{Write}

-- The state of the loop over a union's candidates: the best index so far, the number of fields that
-- the best record shares with the datum (none is -1), whether a float was seen, and the datum.
pub record Choice : Type 0 where
  pub best : Option ℕ
  pub most_fields : Option ℕ
  pub could_be_float : Bool
  pub datum : Datum

abbrev pub has_text : Text → Items → Bool
has_text t nil = false
has_text t (cons d ds) = is_text d t || has_text t ds

-- `len(candidate_fields.intersection(datum_fields))`: a name counts once.
unfoldable pub common_fields : Fields → Items → ℕ
common_fields no_fields ds = 0
common_fields (field name s default aliases fs) ds =
    (if has_text name ds && not (has_field name fs) then 1 else 0) + common_fields fs ds

abbrev pub exceeds : ℕ → Option ℕ → Bool
exceeds n none = true
exceeds n (some m) = ltb m n

-- A reference is replaced by the type that it names, if that is known.
unfoldable pub resolve : WriteContext → Schema → Schema
resolve ctx (ref name) = elim (find_schema name ctx.named_schemas) [ none ↦ ref name | some s ↦ s ]
resolve ctx s = s

-- `break` with the state, or on to the next candidate.
pub data Turn : Type 0 where
  stop : Choice → Turn
  continue : Choice → Turn

abbrev pub is_float : TypeName → Bool
is_float (primitive Primitive.float) = true
is_float t = false

abbrev pub is_double : TypeName → Bool
is_double (primitive Primitive.double) = true
is_double t = false

-- A candidate that the datum fits, by its type.
unfoldable pub fitting_candidate : WriteContext → ℕ → Choice → Schema → Result Turn
fitting_candidate ctx index c (record_schema a plain name aliases fs) =
    bind (prepare ctx.logical_writers c.datum (record_schema a plain name aliases fs)) (λ d.
      bind (iterate d) (λ ds.
        let shared = common_fields fs ds in
        ok (
          continue (
            if exceeds shared c.most_fields
            then record c { best = some index; most_fields = some shared; datum = d }
            else record c { datum = d }))))
fitting_candidate ctx index c s = ok (
    if is_float (extract_record_type s)
    then continue (record c { best = some index; could_be_float = true })
    else stop (record c { best = some index }))

-- One round of the loop; `valid` is `_validate` without errors.
unfoldable pub try_candidate :
    (Datum → Schema → Result Bool) → WriteContext → ℕ → Choice → Schema → Result Turn
try_candidate valid ctx index c s =
    if c.could_be_float
    then ok (
        if is_double (extract_record_type s)
        then stop (record c { best = some index })
        else continue c)
    else bind (valid c.datum s)
        (λ fits. if fits then fitting_candidate ctx index c (resolve ctx s) else ok (continue c))

unfoldable pub choose_from :
    (Datum → Schema → Result Bool) → WriteContext → ℕ → Choice → Schemas → Result Choice
choose_from valid ctx index c no_schemas = ok c
choose_from valid ctx index c (also s ss) =
    bind (try_candidate valid ctx index c s) (λ turn. elim turn [
      | stop c' ↦ ok c'
      | continue c' ↦ choose_from valid ctx (suc index) c' ss
    ])

-- The name that a tuple gives, against a candidate's: the full name of a named type, or else its type.
abbrev pub candidate_name : Schema → Text
candidate_name s = elim (name? s) [ none ↦ type_text (extract_record_type s) | some name ↦ name ]

unfoldable pub choose_named : Datum → ℕ → Schemas → Option ℕ
choose_named name index no_schemas = none
choose_named name index (also s ss) =
    let rest = choose_named name (suc index) ss in
    if is_text name (candidate_name s) then some index else rest

-- The branch of a union for a datum, and the datum that is written there.
unfoldable pub choose_any :
    (Datum → Schema → Result Bool) → WriteContext → Datum → Schemas → Result (ℕ × Datum)
choose_any valid ctx datum ss =
    let start : Choice = record {
      best = none;
      most_fields = none;
      could_be_float = false;
      datum = datum;
    } in
    bind (choose_from valid ctx 0 start ss)
      (λ c. bind (from_option value_error c.best) (λ index. ok (index, c.datum)))

unfoldable pub choose_pair : Items → Schemas → Result (ℕ × Datum)
choose_pair ds ss = bind (unpair ds) (λ (name, datum).
    bind (from_option value_error (choose_named name 0 ss)) (λ index. ok (index, datum)))

unfoldable pub choose_branch :
    (Datum → Schema → Result Bool)
    → WriteContext
    → WriteOptions
    → Datum
    → Schemas
    → Result (ℕ × Datum)
choose_branch valid ctx options (tuple ds) ss =
    if options.disable_tuple_notation then choose_any valid ctx (tuple ds) ss else choose_pair ds ss
choose_branch valid ctx options datum ss = choose_any valid ctx datum ss

unfoldable pub write_union :
    Write → (Datum → Schema → Result Bool) → WriteContext → WriteOptions → Datum → Schemas → Written
write_union write valid ctx options datum ss =
    choose_branch valid ctx options datum ss >>= λ (index, d). do
      write_index index
      s ← from_option index_error (get_schema ss index)
      write d s
