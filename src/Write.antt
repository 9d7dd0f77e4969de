-- ===== src/Write.antt =====
-- Writing data in the binary format (fastavro/_write_py.py).
pub mod Values
pub mod Unions
pub mod Records
pub mod Data
