-- ===== src/Tests.antt =====
-- Runs of the model at small inputs, and the theorems at inputs that meet their hypotheses.
mod Samples
mod Parsing
mod Rounds
mod Generate
mod Header
mod Codec
mod RoundTrip
mod Skipping
mod Container
mod Resolution
mod Logical
mod Schemaless
