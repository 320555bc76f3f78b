-- ===== src/Payloads.antt =====
-- The typed payloads: src/fleet_memory/payloads/*.py.
pub mod Norm
pub mod Models
pub mod BackwardEdge
pub mod Registry
pub mod Base
mod Tests
