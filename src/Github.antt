-- ===== src/Github.antt =====
-- internal/auth/github and `AuthorizeAction` of internal/auth/github.go: the GitHub gate, which
-- routes a request through a table of path templates and holds it against the exposure ceiling.
pub mod Table
pub mod Match
pub mod Matching
pub mod Memo
pub mod Template
pub mod Lookup
pub mod Best
pub mod Routing
pub mod Policy
pub mod Classifier
pub mod Gate
pub mod Approval
pub mod Authorized
pub mod Ceilings
pub mod Sensitive
mod Tests
