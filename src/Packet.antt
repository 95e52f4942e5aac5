-- ===== src/Packet.antt =====
-- The package packet: chunks, acknowledgement, snapshots, the map cache, player input.
pub mod Chunk
pub mod Ack
pub mod Snap
pub mod Input
pub mod Fields
pub mod Capabilities
pub mod Token
pub mod Login
pub mod ServerEvent
pub mod EventQueue
pub mod Assembly
pub mod Objects
pub mod MapCache
pub mod Messages
pub mod MapChange
