-- ===== src/Parsing/Names.antt =====
-- What a parse carries along: the named schemas and the names that it has defined (`named_schemas` and
-- `names` of `_parse_schema`, fastavro/_schema_py.py).
use fastavro.Prelude.{Bool, true, false, List, [], ◌∷◌, ◌++◌, if◌then◌else◌, Option, none, some}
use fastavro.Python.Errors.{Result, ok, err, schema_parse_error}
use fastavro.Python.Text.{Text, eq_text}
use fastavro.Schema.{Schema, NamedSchemas, contains_text}

-- The dictionary of named schemas while types are being parsed: an entry without a schema is a record
-- whose parse is under way, which has no `name` yet.
abbrev pub Named : Type 0
Named = List (Text × Option Schema)

unfoldable pub find_named : Text → Named → Option (Option Schema)
find_named name [] = none
find_named name ((n, s) ∷ rest) = if eq_text n name then some s else find_named name rest

unfoldable pub is_known : Text → Named → Bool
unfolding find_named
is_known name named = elim (find_named name named) [ none ↦ false | some s ↦ true ]

-- `named_schemas[name] = schema`
unfoldable pub put_named : Text → Option Schema → Named → Named
put_named name s [] = (name, s) ∷ []
put_named name s ((n, t) ∷ rest) =
    if eq_text n name then (n, s) ∷ rest else (n, t) ∷ put_named name s rest

pub record Parsing : Type 0 where
  pub names : List Text
  pub named : Named

-- `if fullname in names: raise SchemaParseException`, and `names.add(fullname)`.
unfoldable pub define_name : Text → Parsing → Result Parsing
define_name name st =
    if contains_text name st.names
    then err schema_parse_error
    else ok (record { names = st.names ++ (name ∷ []); named = st.named })

unfoldable pub store : Text → Option Schema → Parsing → Parsing
unfolding put_named
store name s st = record { names = st.names; named = put_named name s st.named }

-- The dictionary as it is handed in, and as it is found after the parse.
unfoldable pub from_named_schemas : NamedSchemas → Named
from_named_schemas [] = []
from_named_schemas ((name, s) ∷ rest) = (name, some s) ∷ from_named_schemas rest

unfoldable pub to_named_schemas : Named → NamedSchemas
to_named_schemas [] = []
to_named_schemas ((name, some s) ∷ rest) = (name, s) ∷ to_named_schemas rest
to_named_schemas ((name, none) ∷ rest) = to_named_schemas rest
