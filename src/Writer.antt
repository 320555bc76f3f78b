-- ===== src/Writer.antt =====
-- The deterministic writer: src/fleet_memory/writer/*.py.
pub mod Identity
pub mod Supersession
pub mod Core
mod Tests
