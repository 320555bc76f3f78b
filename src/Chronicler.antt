-- ===== src/Chronicler.antt =====
-- The Chronicler, src/fleet_memory/chronicler.
pub mod Episode
pub mod Rows
pub mod Harvest
pub mod Sink
pub mod Source
mod Tests
