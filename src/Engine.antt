-- ===== src/Engine.antt =====
-- crates/vt-engine/src/lib.rs: `VtEngine`, the parser and the screen that it drives.
pub mod State
pub mod Checkpoint
pub mod Feed
pub mod Run
mod Tests
