-- ===== src/Parser.antt =====
-- crates/vt-engine/src/parser.rs: the byte state machine of the terminal. What the trait `Actions`
-- receives is returned as a list of actions, in order.
pub mod State
pub mod Utf8
pub mod Sequences
pub mod Strings
pub mod Step
pub mod Bounds
pub mod Invariant
pub mod Putback
pub mod Feed
pub mod Params
pub mod Csi
pub mod Encoding
pub mod Text
pub mod Cancel
mod Tests
