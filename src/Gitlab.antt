-- ===== src/Gitlab.antt =====
-- internal/auth/gitlab and the classification in `AuthorizeAction` of internal/auth/gitlab.go: the
-- GitLab gate, which finds the most literal template of a request and holds its category against
-- the exposure ceiling.
pub mod Table
pub mod Classifier
pub mod Matching
pub mod Best
pub mod Gate
pub mod Authorized
mod Tests
