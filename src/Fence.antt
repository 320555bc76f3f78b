-- ===== src/Fence.antt =====
-- The liveness fence, src/fleet_memory/fence.
pub mod Time
pub mod Files
pub mod Verdict
pub mod Ack
pub mod Marker
pub mod Builds
pub mod StoreAge
pub mod Report
pub mod Check
pub mod Run
mod Tests
