-- ===== src/Tcp.antt =====
-- The TCP endpoint: messages, receiver, sender, and the peer that joins the two.
pub mod Messages
pub mod Receiver
pub mod Sender
pub mod Peer
