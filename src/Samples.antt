-- ===== src/Samples.antt =====
-- The theorems of the development at concrete inputs.
mod Integers
mod Reading
mod Packets
mod Snapshots
mod Objects
mod Maps
mod Messages
mod Sessions
mod Sessions7
mod Downloads
mod Events
mod Assembly
mod Readers
mod Clients
