-- ===== src/Parsing.antt =====
-- Schema parsing: `parse_schema` of fastavro/_schema_py.py, the parsing canonical form of a schema and
-- its fingerprints (fastavro/_schema_common.py).
pub mod Names
pub mod Checks
pub mod Properties
pub mod Kinds
pub mod Parse
pub mod Ends
pub mod Closed
pub mod Advances
pub mod Resolved
pub mod TopLevel
pub mod Defined
pub mod Distinct
pub mod Heights
pub mod Termination
pub mod Fingerprint
pub mod Canonical
pub mod Standard
