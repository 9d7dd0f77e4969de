-- ===== src/RoundTrip.antt =====
-- What is written is read back: `write_data` against `read_data`, from the primitives up.
pub mod Transmits
pub mod Primitives
pub mod Containers
pub mod Blocks
pub mod Collections
pub mod Records
pub mod Fits
pub mod Data
