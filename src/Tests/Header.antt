-- ===== src/Tests/Header.antt =====
-- A header with the name of a codec, and an anonymized schema.
use fastavro.Prelude.{List, true, [], ◌∷◌, ◌++◌, ◌≡◌, refl, none, replicate, arith}
use fastavro.Python.Errors.{ok, wrote, output}
use fastavro.Python.Text.{Text, Bytes, text, encode, encode_char}
use fastavro.Datum.{Entries, entry, no_entries, bytes}
use fastavro.Context.{default_read_options, ReadContext}
use fastavro.Schema.{Schema, array, ref}
use fastavro.Container.Header.{encoded_metadata, write_header, read_header}
use fastavro.Container.HeaderRoundTrip.{IsMetadata, header_datum, read_header-write_header}
use fastavro.Container.Recognition.{is_avro, is_avro-write_header}
use fastavro.Anonymize.{each, anonymous, anonymize}
use fastavro.Anonymize.Names.{mentioned, mentioned-anonymize}
use fastavro.Tests.Samples.{platform, no_attrs}

abbrev metadata : List (Text × Text)
metadata = (text "avro.codec", text "null") ∷ []

abbrev meta : Entries
meta = entry (text "avro.codec") (bytes (text "null")) no_entries

abbrev sync_marker : Bytes
sync_marker = replicate 16 7

metadata-IsMetadata : IsMetadata metadata
unfolding encode encode_char
metadata-IsMetadata = (
  (
    ((ground arith), (text "avro.codec", refl, omega arith)),
    ((ground arith), (text "null", refl, omega arith)),
  ),
  tt,
)

encoded_metadata-metadata : encoded_metadata metadata ≡ ok meta
unfolding encoded_metadata encode encode_char
encoded_metadata-metadata = refl

abbrev here : ReadContext
here = record { writer = []; reader = []; logical_readers = λ t. none; platform = platform }

read_header-write_header_example :
    (write_header 4 (λ t. none) platform metadata sync_marker
      ≡ wrote (output (write_header 4 (λ t. none) platform metadata sync_marker)))
    × (read_header 4 here default_read_options
          (output (write_header 4 (λ t. none) platform metadata sync_marker) ++ 1 ∷ [])
        ≡ ok (header_datum sync_marker meta, 1 ∷ []))
read_header-write_header_example =
    read_header-write_header 1 (λ t. none) platform here metadata meta sync_marker (1 ∷ []) refl
      metadata-IsMetadata encoded_metadata-metadata (refl, tt) (omega arith) refl

is_avro-write_header_example :
    is_avro (output (write_header 4 (λ t. none) platform metadata sync_marker) ++ 1 ∷ []) ≡ true
is_avro-write_header_example =
    is_avro-write_header 2 (λ t. none) platform metadata meta sync_marker (1 ∷ [])
      encoded_metadata-metadata

-- A digest that is easy to follow.
abbrev same_text : Bytes → Text
same_text b = b

abbrev secret : Schema
secret = array no_attrs (ref (text "a"))

abbrev anonymized : Schema
anonymized = array no_attrs (ref (text "A_a"))

anonymize-secret : anonymize same_text secret ≡ ok anonymized
unfolding anonymize encode encode_char
anonymize-secret = refl

mentioned-anonymize_example :
    each (anonymous same_text) (mentioned secret) ≡ ok (mentioned anonymized)
mentioned-anonymize_example = mentioned-anonymize same_text secret anonymized anonymize-secret
