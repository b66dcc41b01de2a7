-- ===== src/Azure.antt =====
-- internal/auth/azure: the Azure gate, which derives the RBAC action of a Resource Manager request
-- and asks whether the configured role grants it.
pub mod Path
pub mod Types
pub mod Classifier
pub mod Roles
pub mod Walking
pub mod Namespace
pub mod Patterns
pub mod Verbs
mod Tests
