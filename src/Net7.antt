-- ===== src/Net7.antt =====
-- The package net7: protocol 0.7.
pub mod Header
pub mod Messages
pub mod SnapSize
pub mod SnapDecode
