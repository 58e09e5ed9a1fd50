-- ===== src/Raymarine.antt =====
-- The Raymarine wire format, mayara-core/src/protocol/raymarine.rs.
mod Tests
pub mod Spoke
pub mod Frames
pub mod Status
pub mod Beacons
pub mod Safety
