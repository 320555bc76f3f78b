-- ===== src/Reindex.antt =====
-- Reindexing of a corpus: src/fleet_memory/reindex/.
pub mod Manifest
pub mod Classify
pub mod Lessons
pub mod Parsers
pub mod Collisions
pub mod Walk
pub mod Pipeline
pub mod Audit
pub mod Publisher
mod Tests
