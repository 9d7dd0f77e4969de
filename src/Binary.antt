-- ===== src/Binary.antt =====
-- The Avro binary format (fastavro/io/binary_encoder.py, fastavro/io/binary_decoder.py).
pub mod Encoder
pub mod Decoder
pub mod Varint
