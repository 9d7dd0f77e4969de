-- ===== src/Container.antt =====
-- Container files: a header, and blocks of records between sync marks.
pub mod Header
pub mod HeaderRoundTrip
pub mod Recognition
pub mod Codecs
pub mod Writer
pub mod Blocks
pub mod Delivery
pub mod RoundTrip
