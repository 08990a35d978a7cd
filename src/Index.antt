-- ===== src/Index.antt =====
-- crates/nks-index: the preset index. The database is another package's.
pub mod Query
pub mod Scanner
pub mod Store
pub mod Watch
pub mod Tests
