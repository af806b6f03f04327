-- ===== src/Protocol.antt =====
-- teleport/src/protocol.rs: the wire header, the sender, the receiver, and the XOR delta.
pub mod Header
pub mod Sender
pub mod Receiver
pub mod Reassembly
pub mod Delta
