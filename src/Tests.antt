-- ===== src/Tests.antt =====
-- Runs of the code and instances of the theorems at concrete inputs.
pub mod Members
pub mod Maintenance
pub mod Wire
pub mod Keyring
pub mod Parts
pub mod Interface
pub mod Ping
pub mod Refinement
pub mod Broadcast
pub mod Codecs
pub mod Exchange
pub mod Gossip
pub mod Replies
pub mod Transport
pub mod Startup
pub mod Addresses
pub mod Schedule
pub mod Process
