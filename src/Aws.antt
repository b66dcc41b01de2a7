-- ===== src/Aws.antt =====
-- internal/auth/aws: the gate of the AWS connector.
pub mod Model
pub mod Template
pub mod Rest
pub mod Protocols
pub mod Actions
pub mod Evaluator
pub mod Gate
pub mod Refined
pub mod Covered
pub mod Authorized
pub mod Keys
pub mod Resolved
mod Tests
