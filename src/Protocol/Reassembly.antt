-- ===== src/Protocol/Reassembly.antt =====
-- The sender of teleport/src/protocol.rs against its receiver: fragments of one message that
-- arrive in some order, some of them more than once.
pub mod Seen
pub mod Message
pub mod Step
pub mod Arrival
pub mod Fragments
pub mod Orders
pub mod RoundTrip
pub mod Current
