-- ===== src/Write/Records.antt =====
-- fastavro/_write_py.py: `write_record`, its checks and its defaults.
use fastavro.Prelude.{
  Bool, true, false, not, ◌&&◌, ◌||◌, [], ◌==◌, if◌then◌else◌, Option, none, some,
}
use fastavro.Python.Errors.{
  Result, ok, err, bind, Written, wrote, raised, ◌>>=◌, ◌>>◌, value_error, attribute_error,
  type_error,
}
use fastavro.Python.Text.{Text, text, is_substring}
use fastavro.Datum.{
  Datum, Entries, no_entries, entry, float, dict, get, contains, iterate, are_hashable, Items,
  count_items, to_float,
}
use fastavro.Schema.{
  has_field, Schema, Schemas, Fields, Primitive, prim, ref, union, no_schemas, also, no_fields,
  field, type_text, primitive,
}
use fastavro.Context.{WriteContext, WriteOptions}
use fastavro.Write.Values.{Write}

-- `"null" not in field_type`: a test on a text, a list or the keys of a dictionary.
abbrev pub has_null_branch : Schemas → Bool
has_null_branch no_schemas = false
has_null_branch (also (prim Primitive.null) ss) = true
has_null_branch (also s ss) = has_null_branch ss

abbrev pub has_null : Schema → Bool
has_null (prim p) = is_substring (text "null") (type_text (primitive p))
has_null (ref name) = is_substring (text "null") name
has_null (union ss) = has_null_branch ss
has_null s = false

abbrev pub is_float_type : Schema → Bool
is_float_type (prim Primitive.float) = true
is_float_type (prim Primitive.double) = true
is_float_type s = false

-- The value of a field, with the checks on a missing one.
unfoldable pub field_value :
    WriteContext → WriteOptions → Entries → Text → Schema → Option Datum → Result Datum
field_value ctx options es name s default =
    let missing = not (contains name es) in
    let no_default : Bool = elim default [ none ↦ true | some d ↦ false ] in
    let strictly = options.strict || (options.strict_allow_default && no_default) in
    let value : Datum = elim (get name es) [
      | some d ↦ d
      | none ↦ elim default [ none ↦ Datum.null | some d ↦ d ]
    ] in
    if missing && (strictly || (no_default && not (has_null s)))
    then err value_error
    else if is_float_type s
    then bind (to_float ctx.platform value) (λ x. ok (float x))
    else ok value

unfoldable pub write_fields : Write → WriteContext → WriteOptions → Entries → Fields → Written
write_fields write ctx options es no_fields = wrote []
write_fields write ctx options es (field name s default aliases fs) = do
  value ← field_value ctx options es name s default
  write value s
  write_fields write ctx options es fs

-- `set(datum) - set(field names)` has a member.
unfoldable pub has_extras : Entries → Fields → Bool
has_extras no_entries fs = false
has_extras (entry k d es) fs = not (has_field k fs) || has_extras es fs

-- `set(datum)` of what a datum goes through.
abbrev pub as_set : Datum → Result Items
as_set datum = bind (iterate datum) (λ ds. if are_hashable ds then ok ds else err type_error)

-- A datum that is no dictionary: one that has no set is refused at once; of the others the
-- model keeps the outcome, but not which exception it is.
abbrev pub write_no_dict : WriteOptions → Datum → Fields → Written
write_no_dict options datum no_fields = do
  ds ← as_set datum
  if (options.strict || options.strict_allow_default) && not (count_items ds == 0)
      then raised value_error []
      else wrote []
write_no_dict options datum fs = do ds ← as_set datum; raised attribute_error []

unfoldable pub write_record : Write → WriteContext → WriteOptions → Datum → Fields → Written
write_record write ctx options (dict es) fs =
    if (options.strict || options.strict_allow_default) && has_extras es fs
    then raised value_error []
    else write_fields write ctx options es fs
write_record write ctx options datum fs = write_no_dict options datum fs
