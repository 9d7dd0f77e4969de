-- ===== src/Tests/Codec.antt =====
-- Texts and integers in bytes.
use fastavro.Prelude.{[], ◌∷◌, ◌++◌, ◌≡◌, refl, arith}
use fastavro.Python.Errors.{ok, wrote, output}
use fastavro.Python.Ints.{pos, negsuc}
use fastavro.Python.Text.{text, decode}
use fastavro.RoundTrip.Primitives.{read_utf8-write_utf8}
use fastavro.Datum.{str}
use fastavro.Binary.Encoder.{write_utf8, write_long, write_int, write_groups, zigzag}
use fastavro.Binary.Decoder.{read_long, read_utf8}
use fastavro.Binary.Varint.{read_long-write_long, read_long-write_long_wide}

read_utf8-write_utf8_example :
    (write_utf8 (str (text "aé€😀")) ≡ wrote (output (write_utf8 (str (text "aé€😀")))))
    × (read_utf8 decode (output (write_utf8 (str (text "aé€😀"))) ++ (0xFF ∷ []))
        ≡ ok (text "aé€😀", 0xFF ∷ []))
read_utf8-write_utf8_example =
    read_utf8-write_utf8 (text "aé€😀") (0xFF ∷ []) (ground arith) (omega arith)

write_long_run : output (write_long (negsuc 299)) ≡ 0xd7 ∷ 0x04 ∷ []
unfolding write_long write_int write_groups zigzag
write_long_run = refl

read_long-write_long_example :
    read_long (output (write_long (negsuc 299)) ++ (7 ∷ [])) ≡ ok (negsuc 299, 7 ∷ [])
read_long-write_long_example = read_long-write_long (negsuc 299) (7 ∷ []) (omega arith)

read_long-write_long_wide_example :
    ((write_long (pos 0x8000_0000_0000_0000)
        ≡ wrote (output (write_long (pos 0x8000_0000_0000_0000))))
      × (read_long (output (write_long (pos 0x8000_0000_0000_0000)) ++ [])
          ≡ ok (negsuc 0x8000_0000_0000_0000, [])))
    × ((write_long (negsuc 0x8000_0000_0000_0000)
          ≡ wrote (output (write_long (negsuc 0x8000_0000_0000_0000))))
        × (read_long (output (write_long (negsuc 0x8000_0000_0000_0000)) ++ [])
            ≡ ok (pos 0x8000_0000_0000_0000, [])))
read_long-write_long_wide_example =
    read_long-write_long_wide 0x8000_0000_0000_0000 [] (omega arith) (omega arith)
