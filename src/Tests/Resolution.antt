-- ===== src/Tests/Resolution.antt =====
-- A schema with arrays and maps of records, against itself.
use fastavro.Prelude.{◌≡◌, arith}
use fastavro.Python.Errors.{ok}
use fastavro.Schema.{Schema, array, map}
use fastavro.Resolution.{match_schemas}
use fastavro.Resolution.Reflexive.{match_schemas_refl, nesting}
use fastavro.Tests.Samples.{no_attrs, node, read_context}

abbrev nodes : Schema
nodes = map no_attrs (array no_attrs node)

match_schemas_refl_example : match_schemas read_context 6 nodes nodes ≡ ok nodes
unfolding nesting
match_schemas_refl_example = match_schemas_refl read_context 6 nodes (omega arith)
