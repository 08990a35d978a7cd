-- ===== src/Nks.antt =====
-- crates/nks-parse: reading the metadata of a preset file.
pub mod Riff
pub mod Plid
pub mod Tests
