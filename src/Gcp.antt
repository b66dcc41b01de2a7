-- ===== src/Gcp.antt =====
-- internal/auth/gcp: the Google Cloud gate's classifier, which finds the one API method that a
-- request calls, and its role evaluator.
pub mod Template
pub mod Classifier
pub mod Roles
pub mod Cuts
pub mod Fitting
pub mod Survivors
pub mod Sound
mod Tests
