-- ===== src/Attach.antt =====
-- crates/rill-attach/src/lib.rs: the framed attach protocol on a byte stream.
pub mod Bytes
pub mod Frame
pub mod Decoder
pub mod Codec
pub mod Head
pub mod Stream
pub mod RoundTrip
mod Tests
