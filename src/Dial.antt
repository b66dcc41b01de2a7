-- ===== src/Dial.antt =====
-- internal/auth/addr.go: the addresses that a request may be dialled on.
pub mod Address
pub mod Floor
pub mod Embedded
mod Tests
