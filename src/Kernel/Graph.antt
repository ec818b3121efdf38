-- ===== src/Kernel/Graph.antt =====
-- crates/rill-kernel/src/kernel.rs: the graph of sessions and containers.
pub mod State
pub mod Leaves
pub mod Nodes
pub mod Links
pub mod Moves
pub mod Subtree
pub mod Create
pub mod Log
pub mod Good
pub mod Steps
pub mod Isolated
pub mod Closing
mod Tests
