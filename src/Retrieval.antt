-- ===== src/Retrieval.antt =====
-- Retrieval: src/fleet_memory/retrieval/*.py.
pub mod Item
pub mod Request
pub mod RoleScope
pub mod Assembly
pub mod Search
mod Tests
pub mod Composition
