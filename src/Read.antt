-- ===== src/Read.antt =====
-- Reading data in the binary format, with schema resolution (fastavro/_read_py.py).
pub mod Values
pub mod Unions
pub mod Records
pub mod Data
