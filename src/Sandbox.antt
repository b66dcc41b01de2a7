-- ===== src/Sandbox.antt =====
-- internal/sandbox: one run of a script. The loop goroutine runs the script and settles the promises
-- of its tool calls; each tool call has a worker goroutine, and a semaphore bounds how many run.
pub mod Pool
pub mod Steps
pub mod Bounds
pub mod Progress
mod Tests
