-- ===== src/Authreq.antt =====
-- internal/auth/authreq: the view of a request that the gates judge, and the readings of its path.
pub mod View
pub mod Unescape
pub mod Path
pub mod Readings
pub mod Segments
mod Tests
