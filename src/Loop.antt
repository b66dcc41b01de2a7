-- ===== src/Loop.antt =====
-- internal/agent/loop.go and failure_summary.go: one run of the agent.
pub mod Messages
pub mod Act
pub mod Steps
pub mod Turns
pub mod Pairs
pub mod Accepts
pub mod Paired
mod Tests
