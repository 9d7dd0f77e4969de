-- ===== src/Read/Unions.antt =====
-- fastavro/_read_py.py: `read_union`.
use fastavro.Prelude.{Bool, true, false, not, ◌&&◌, if◌then◌else◌, Option, none, some}
use fastavro.Python.Errors.{
  Result, ok, err, bind, from_option, type_error, key_error, schema_resolution_error,
}
use fastavro.Python.Text.{Text}
use fastavro.Python.Files.{Reader, fail, ◌>>=◌}
use fastavro.Datum.{Datum, nil, cons, str, tuple}
use fastavro.Schema.{
  Schema, Schemas, TypeName, ref, union, no_schemas, also, extract_record_type, find_schema,
  is_named_type, is_avro_type, name?, is_single_record_union, is_single_name_union, record_type,
  NamedSchemas,
}
use fastavro.Context.{ReadContext, ReadOptions}
use fastavro.Resolution.{is_string}
use fastavro.Read.Values.{Read, given, schema_at}
use fastavro.Binary.Decoder.{read_index}

-- The first branch of the reader's union that matches is read by; there is no second try.
unfoldable pub matching_branch : (Schema → Result Bool) → Schemas → Result Schema
matching_branch test no_schemas = err schema_resolution_error
matching_branch test (also s ss) =
    let rest = matching_branch test ss in bind (test s) (λ found. if found then ok s else rest)

-- The reader's schema for the branch, and the branch of the reader's union, if it has one.
unfoldable pub reader_branch :
    (Schema → Result Bool) → Option Schema → Result (Option Schema × Option Schema)
reader_branch test none = ok (none, none)
reader_branch test (some (union ss)) = bind (matching_branch test ss) (λ s. ok (some s, some s))
reader_branch test (some s) =
    bind (test s) (λ found. if found then ok (some s, none) else err schema_resolution_error)

-- `schema["name"]`: a string has no keys, and of the rest only a named type has that one.
abbrev pub name_of : Schema → Result Text
name_of s = if is_string s then err type_error else from_option key_error (name? s)

-- `named_schemas[…][schema]["name"]`: only a string can be a key.
abbrev pub name_behind : NamedSchemas → Schema → Result Text
name_behind table (ref name) = bind (from_option key_error (find_schema name table)) name_of
name_behind table s = if is_string s then err key_error else err type_error

abbrev pub branch_name : Option Schema → Schema → Result Text
branch_name none s = name_of s
branch_name (some r) s = name_of r

abbrev pub referenced_name : ReadContext → Option Schema → Schema → Result Text
referenced_name ctx none s = name_behind ctx.writer s
referenced_name ctx (some r) s = name_behind ctx.reader r

abbrev pub with_name : Result Text → Datum → Result Datum
with_name name d = bind name (λ t. ok (tuple (cons (str t) (cons d nil))))

abbrev pub is_record : TypeName → Bool
is_record record_type = true
is_record t = false

-- What the options make of a value that was read from a branch.
unfoldable pub label_result :
    ReadContext → ReadOptions → Schemas → Schema → Option Schema → Datum → Result Datum
label_result ctx options ss s r d =
    let type = extract_record_type s in
    if options.return_named_type_override && is_single_name_union ss
    then ok d
    else if options.return_named_type && is_named_type type
    then with_name (branch_name r s) d
    else if options.return_named_type && not (is_avro_type type)
    then with_name (referenced_name ctx r s) d
    else if options.return_record_name_override && is_single_record_union ss
    then ok d
    else if options.return_record_name && is_record type
    then with_name (branch_name r s) d
    else if options.return_record_name && not (is_avro_type type)
    then with_name (referenced_name ctx r s) d
    else ok d

unfoldable pub read_union :
    Read
    → (Schema → Schema → Result Bool)
    → ReadContext
    → ReadOptions
    → Schemas
    → Option Schema
    → Reader Datum
read_union read types_match ctx options ss r = read_index >>= λ i. fail (schema_at ss i) >>= λ s.
    fail (reader_branch (types_match s) (given r)) >>= λ (rs, branch).
    read s rs >>= λ d. fail (label_result ctx options ss s branch d)
