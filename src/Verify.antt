-- ===== src/Verify.antt =====
-- internal/agent/verify.go: the two adversarial passes that a finding has to survive.
pub mod Walk
pub mod Documents
pub mod Keys
pub mod Verdicts
pub mod Decode
pub mod Pass
pub mod Passes
pub mod Fold
pub mod Nested
pub mod Parsed
pub mod Confirmed
pub mod Reported
mod Tests
