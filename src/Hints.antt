-- ===== src/Hints.antt =====
-- internal/apiref/candidates.go: the operations suggested for a request that matched none.
pub mod Distance
pub mod Edits
pub mod Shortest
pub mod Candidates
pub mod Near
mod Tests
