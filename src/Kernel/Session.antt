-- ===== src/Kernel/Session.antt =====
-- crates/rill-kernel/src/session.rs: one session, its byte history, credit, lease and attach state.
pub mod State
pub mod Input
pub mod Output
pub mod Frames
pub mod Journal
pub mod Sound
pub mod Observed
pub mod Quiet
pub mod Reads
pub mod Run
pub mod Effects
pub mod Order
pub mod Promise
mod Tests
