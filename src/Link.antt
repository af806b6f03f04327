-- ===== src/Link.antt =====
-- The frames of teleport/src/source.rs as teleport/src/target.rs handles them.
pub mod Frame
pub mod Frames
pub mod Session
pub mod Start
pub mod Visible
pub mod Rounds
pub mod Recorder
pub mod Unseen
pub mod Wire
pub mod Delivered
pub mod Through
pub mod Message
pub mod Transmit
pub mod Broadcast
pub mod Together
