-- ===== src/Wire.antt =====
-- Headers and payloads as bytes: util/parser, util/checksum, and the formats that use them.
pub mod Parser
pub mod Serializer
pub mod Checksum
pub mod Ethernet
pub mod Arp
pub mod Ipv4
pub mod TcpSegment
pub mod TcpOverIp
