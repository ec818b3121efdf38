-- ===== src/Screen.antt =====
-- crates/vt-engine/src/screen.rs: the visible grid, the cursor and the modes that the parser's
-- actions drive.
pub mod Cell
pub mod State
pub mod Scroll
pub mod Erase
pub mod Lines
pub mod Modes
pub mod Reply
pub mod Sgr
pub mod Write
pub mod Dispatch
pub mod Snapshot
pub mod Valid
pub mod Keeps
pub mod Alternate
pub mod Rows
pub mod Repaint
pub mod Checkpoint
mod Tests
