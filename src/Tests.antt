-- ===== src/Tests.antt =====
-- The theorems at concrete inputs.
mod Streams
mod Segments
mod Network
mod Packets
mod Events
mod Connections
pub mod Adapters
pub mod Programs
