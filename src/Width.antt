-- ===== src/Width.antt =====
-- crates/vt-engine/src/east_asian_width.rs: which code points are wide and which are marks.
pub mod Wide
pub mod Mark
pub mod Search
pub mod Order
pub mod Tables
mod Tests
