-- ===== src/Transcript.antt =====
-- crates/rill-kernel/src/transcript.rs: the ledger of semantic events.
pub mod Event
pub mod Producers
pub mod Ledger
pub mod Order
pub mod Index
pub mod Identity
mod Tests
