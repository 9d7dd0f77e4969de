-- ===== src/Container/Codecs.antt =====
-- The block codecs of fastavro/_write_py.py and fastavro/_read_py.py that need no further package.
use fastavro.Prelude.{Option, none, some, length, take, drop, ◌-◌, if◌then◌else◌}
use fastavro.Python.Errors.{Result, Written, ◌>>◌}
use fastavro.Python.Ints.{ℤ, pos}
use fastavro.Python.Text.{Text, Bytes, text, eq_text}
use fastavro.Python.Files.{Reader, fail, ◌>>=◌}
use fastavro.Datum.{bytes}
use fastavro.Binary.Encoder.{write_long, write_raw}
use fastavro.Binary.Decoder.{read_long, read_bytes}
use fastavro.Binary.Decoder

-- The compression libraries of the language, by what the codecs call of them.
pub record Libraries : Type 0 where
  pub zlib_compress : Option ℤ → Bytes → Bytes
  pub zlib_decompress_raw : Bytes → Result Bytes
  pub bz2_compress : Bytes → Bytes
  pub bz2_decompress : Bytes → Result Bytes
  pub lzma_compress : Bytes → Bytes
  pub lzma_decompress : Bytes → Result Bytes

abbrev pub BlockWriter : Type 0
BlockWriter = Bytes → Option ℤ → Written

abbrev pub BlockReader : Type 0
BlockReader = Reader Bytes

-- `encoder.write_long(len(data))`, `encoder._fo.write(data)`
unfoldable pub write_sized : Bytes → Written
write_sized block = do write_long (pos (length block)); write_raw (bytes block)

unfoldable pub null_write_block : BlockWriter
null_write_block block level = write_sized block

-- `[2:-1]`
abbrev pub without_wrapper : Bytes → Bytes
without_wrapper packed = drop 2 (take (length packed - 1) packed)

module _ (libs : Libraries) where
  unfoldable pub deflate_write_block : BlockWriter
  deflate_write_block block level = write_sized (without_wrapper (libs.zlib_compress level block))

  unfoldable pub bzip2_write_block : BlockWriter
  bzip2_write_block block level = write_sized (libs.bz2_compress block)

  unfoldable pub xz_write_block : BlockWriter
  xz_write_block block level = write_sized (libs.lzma_compress block)

  -- `BLOCK_WRITERS.get(codec)`
  unfoldable pub block_writers : Text → Option BlockWriter
  block_writers codec =
      if eq_text codec (text "null")
      then some null_write_block
      else if eq_text codec (text "deflate")
      then some deflate_write_block
      else if eq_text codec (text "bzip2")
      then some bzip2_write_block
      else if eq_text codec (text "xz")
      then some xz_write_block
      else none

unfoldable pub null_read_block : BlockReader
null_read_block = read_bytes

module _ (libs : Libraries) where
  unfoldable pub deflate_read_block : BlockReader
  deflate_read_block = read_bytes >>= λ packed. fail (libs.zlib_decompress_raw packed)

  unfoldable pub bzip2_read_block : BlockReader
  bzip2_read_block = read_bytes >>= λ packed. fail (libs.bz2_decompress packed)

  unfoldable pub xz_read_block : BlockReader
  xz_read_block =
      read_long >>= λ size. Decoder.read_fixed size >>= λ packed. fail (libs.lzma_decompress packed)

  -- `BLOCK_READERS.get(codec)`
  unfoldable pub block_readers : Text → Option BlockReader
  block_readers codec =
      if eq_text codec (text "null")
      then some null_read_block
      else if eq_text codec (text "deflate")
      then some deflate_read_block
      else if eq_text codec (text "bzip2")
      then some bzip2_read_block
      else if eq_text codec (text "xz")
      then some xz_read_block
      else none
