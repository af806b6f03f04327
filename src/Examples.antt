-- ===== src/Examples.antt =====
-- Tests of the definitions on small inputs, and the theorems at concrete inputs.
pub mod Wire
pub mod Rounds
pub mod Sessions
pub mod Recordings
pub mod Maps
pub mod Handles
pub mod Statistics
pub mod Messages
pub mod Starts
pub mod Through
pub mod Broadcasts
pub mod Runs
pub mod Reached
pub mod Programs
