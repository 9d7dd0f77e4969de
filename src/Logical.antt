-- ===== src/Logical.antt =====
-- Logical types: what is done to a datum before it is written and after it was read.
pub mod Digits
pub mod Writers
pub mod Readers
pub mod Times
pub mod Calendar
pub mod Decimals
pub mod Fixed
