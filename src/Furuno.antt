-- ===== src/Furuno.antt =====
-- The Furuno wire format, mayara-core/src/protocol/furuno/mod.rs.
mod Tests
pub mod Spoke
pub mod Command
pub mod Report
