-- ===== src/Lib.antt =====
-- fastavro reads and writes Avro data. This library models the layer between Python values and the
-- binary format, in the pure Python modules of the package fastavro/ (the .pyx files are the same code for
-- Cython).
--
-- The parts and how they interact:
-- - fastavro/io/binary_encoder.py and fastavro/io/binary_decoder.py put single values on a file and
--   take them off one: Binary/Encoder.antt and Binary/Decoder.antt, a definition for each method.
-- - fastavro/_schema_py.py, the functions on the type and the name of a schema: Schema.antt. A schema
--   is a data type: a string (prim, ref), a list (union) or a dict (the other constructors).
-- - Parsing.antt has `parse_schema` of the same file, from Python values (schemas as JSON has them) to
--   Schema: Names.antt the state (the names defined so far and the dictionary of named schemas), Checks.antt
--   and Properties.antt what is checked and read of a schema, Kinds.antt strings and names, Parse.antt the
--   rest; Canonical.antt the parsing canonical form (Standard.antt has it by the rules of the specification), and Fingerprint.antt the fingerprints, with
--   fastavro/_schema_common.py.
-- - fastavro/_validation_py.py, `_validate` and its validators: Validation.antt.
-- - fastavro/_write_py.py, `write_data`, which dispatches on the schema's type to the writers: Write.antt.
--   Values.antt has fixed, enum, array and map, Unions.antt the choice of a branch (which calls
--   `_validate`), Records.antt the records and Data.antt the dispatch.
-- - fastavro/_read_py.py: Resolution.antt has `match_types`, `match_schemas` and `maybe_promote`;
--   Read.antt has `read_data` and `skip_data`, in files like those of Write.antt.
-- - Schemaless.antt has `schemaless_writer`, `schemaless_reader` and `validate`, which parse the schema first.
-- - Container.antt has the container files of both modules: the header, `is_avro` on an open file, the block codecs, `Writer` as a
--   state (the file, the pending block in `self.io`, the number of its records) with its methods, and the
--   iterators over records and blocks, by the list of what they yield and the exception that ends it.
-- - Logical.antt has the tables of logical types, fastavro/_logical_writers_py.py in Writers.antt and
--   fastavro/_logical_readers_py.py in Readers.antt, on the calendar of Python/Dates.antt: dates by their
--   ordinal, moments by their microseconds.
-- - Generate.antt has `gen_data` and Anonymize.antt `_anonymize_schema` of fastavro/utils.py.
-- - Context.antt has the named schemas, the options and the tables of logical types that are passed along.
-- - Python.antt has what the code uses of its language: integers, texts and UTF-8, floats by their bits,
--   files of bytes and exceptions. Datum.antt has the Python values. Prelude.antt has shared lemmas.
-- The proofs are in Binary/Varint.antt, Logical/Calendar.antt, Parsing/Standard.antt, Python/Text/Codec.antt, RoundTrip.antt, Skipping.antt, Rounds.antt and other
-- modules that are named for what they prove; Tests.antt has runs and examples.
--
-- State: a writer's file is the bytes that a call adds to it (`Written`: all of them, or those that were
-- out when an exception was raised); a reader's file is the bytes that are left (`Reader`). A call of
-- `read_data`, `write_data`, `_validate`, `_parse_schema`, `gen_data` or
-- `match_types` takes the depth of calls that Python's recursion
-- limit leaves, as fuel, and raises `recursion_error` without any. The frames of helper functions are not
-- counted. The loop over an array's blocks takes as many rounds as the file has bytes, plus one, which is
-- enough, since every round reads a count of at least one byte. The loop of `write_int` divides by 128 and
-- takes the number itself as fuel.
--
-- Parameters: the tables of logical readers and writers, where a program passes its own; what the platform
-- does for float(str), float(Decimal), mktime and uuid.UUID; the compression libraries zlib, bz2 and lzma; hashlib; the module random and uuid.uuid4. Names of fields, symbols and
-- schemas and the keys of dicts are texts.
--
-- Not modelled: `validate_many`; numbers with a fraction and integers are never equal in the test for the same schema; messages of exceptions; the field name that only messages use; schemas marked as parsed,
-- properties of a schema that nothing reads, or that are kept without a check and are not of the kind that
-- Avro prescribes (aliases, sizes, scales); `request` and `error_union`; names that are words like
-- "record"; the quieting of NaN by struct; the codecs snappy, zstandard and lz4; loading of schemas; the
-- JSON encoding; decimals that are not finite or whose exponent leaves the context's range; dates in
-- another form than YYYY-MM-DD; quotients of integers beyond 2^53, which Python rounds; the constructors
-- of Writer and of the readers, which parse and print schemas, and appending to a file.
pub mod Prelude
pub mod Python
pub mod Datum
pub mod Binary
pub mod Schema
pub mod Parsing
pub mod Context
pub mod Validation
pub mod Write
pub mod Resolution
pub mod Read
pub mod Logical
pub mod Container
pub mod RoundTrip
pub mod Skipping
pub mod Rounds
pub mod Anonymize
pub mod Generate
pub mod Schemaless
pub mod Tests
