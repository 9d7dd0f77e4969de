-- ===== src/Python.antt =====
-- What the modelled code uses of Python itself: integers of any size, text, floats, errors as
-- values and file objects.
pub mod Errors
pub mod Ints
pub mod Text
pub mod Floats
pub mod Files
pub mod Dates
