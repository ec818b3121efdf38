-- ===== src/Automation.antt =====
-- crates/rill-orchestrate/src/automation.rs: the events and actions of the automation, and the queue
-- between them.
pub mod Event
pub mod Action
pub mod Dispatcher
pub mod Queue
mod Tests
