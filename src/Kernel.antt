-- ===== src/Kernel.antt =====
-- crates/rill-kernel/src: the errors, the checkpoint record, the journal's outcomes, the session and the
-- graph of sessions. The byte ring, the transcript and the content of the same crate have modules of
-- their own.
pub mod Error
pub mod Checkpoint
pub mod Outcome
pub mod Session
pub mod Graph
