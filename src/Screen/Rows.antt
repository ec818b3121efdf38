-- ===== src/Screen/Rows.antt =====
-- The grid of screen.rs row by row: what moving and filling rows does to a cell.
pub mod Copy
pub mod Move
pub mod Scrolled
