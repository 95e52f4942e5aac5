-- ===== src/Net6.antt =====
-- The package net6: protocol 0.6 with the DDNet extensions.
pub mod Header
pub mod Messages
pub mod Builder
pub mod Session
pub mod Reader
pub mod Events
pub mod Extended
pub mod ClientInfo
pub mod SnapSize
pub mod SnapDecode
