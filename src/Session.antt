-- ===== src/Session.antt =====
-- A receive of many segments (src/core/segmented-receiver.ts).
pub mod Types
pub mod Setup
pub mod Routing
pub mod Bits
pub mod FirstMissing
pub mod Geometry
pub mod Valid
pub mod Live
pub mod Commit
pub mod Frames
pub mod Start
pub mod Reassembly
pub mod Delivery
mod Examples
