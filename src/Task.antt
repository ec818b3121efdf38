-- ===== src/Task.antt =====
-- crates/rill-orchestrate/src/task.rs: the agent task.
pub mod Marker
pub mod Section
pub mod State
pub mod Valid
pub mod Gate
pub mod Blocked
pub mod Run
pub mod Fork
pub mod Replay
pub mod Persist
mod Tests
