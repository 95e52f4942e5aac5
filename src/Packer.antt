-- ===== src/Packer.antt =====
-- packer/packer.go and packer/uuid.go: reading and writing of the packed wire format.
pub mod Varint
pub mod Reader
pub mod Sanitize
pub mod Unpack
pub mod Pack
pub mod Uuid
pub mod Bounds
pub mod RoundTrip
