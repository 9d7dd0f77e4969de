-- ===== src/Skipping.antt =====
-- Skipping a value against reading it: `skip_data` and `read_data`.
pub mod Follows
pub mod Blocks
pub mod Data
