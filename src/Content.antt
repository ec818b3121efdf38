-- ===== src/Content.antt =====
-- crates/rill-kernel/src/content.rs: the content timeline, retention policies and durable capture.
pub mod Event
pub mod Policy
pub mod Timeline
pub mod Valid
pub mod Retention
mod Tests
