-- ===== src/Arpa.antt =====
-- Target tracking on the echoes, mayara-core/src/arpa: the Doppler states, the history buffer of
-- the spokes and the contours that are followed in it.
mod Tests
pub mod Doppler
pub mod Polar
pub mod History
pub mod Contour
pub mod Blob
