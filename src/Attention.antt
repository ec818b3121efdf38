-- ===== src/Attention.antt =====
-- crates/rill-orchestrate/src/attention.rs: the queue that badges, mailbox and rollup read.
pub mod Queue
pub mod Overflow
pub mod View
mod Tests
