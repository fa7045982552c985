-- ===== src/Binary.antt =====
-- src/binary.rs: the binary wire format.
pub mod Header
pub mod Checksum
pub mod Codec
pub mod Stream
