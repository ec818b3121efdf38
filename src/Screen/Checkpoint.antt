-- ===== src/Screen/Checkpoint.antt =====
-- `export_checkpoint` and `import_checkpoint` of screen.rs: the screen as bytes with a hash.
pub mod Reader
pub mod Items
pub mod Reads
pub mod Flags
pub mod Hash
pub mod Image
pub mod RoundTrip
