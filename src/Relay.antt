-- ===== src/Relay.antt =====
-- The relay from the message stream to the store: src/fleet_memory/relay/*.py.
pub mod Schema
pub mod Chunker
pub mod ChunkWriter
pub mod Service
pub mod Handler
mod Tests
