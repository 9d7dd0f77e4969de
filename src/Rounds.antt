-- ===== src/Rounds.antt =====
-- The loops over blocks are given enough rounds: a reader never takes more bytes than there are, and a
-- round takes one at least.
pub mod Shrinks
pub mod Decoder
pub mod Resolution
pub mod Values
pub mod Skip
pub mod Results
pub mod Read
