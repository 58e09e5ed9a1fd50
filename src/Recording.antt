-- ===== src/Recording.antt =====
-- The MRR recording format, mayara-server/src/recording/file_format.rs.
pub mod Medium
pub mod Layout
pub mod Frame
pub mod Writer
pub mod Reader
pub mod Session
mod Tests
