-- ===== src/Viewport.antt =====
-- crates/rill-host/src/scroll.rs: the rows that scrolled off the engine's screen, and the view that the
-- host paints of them. Without the `mutate` feature's variable in the environment.
pub mod State
pub mod History
pub mod View
mod Tests
