-- ===== src/Tests.antt =====
-- The theorems applied to concrete inputs, and the parameters that those inputs need.
pub mod Samples
pub mod Queues
pub mod Network
pub mod Lobbies
pub mod Saving
pub mod Connections
pub mod Sessions
pub mod Settings
pub mod Starting
pub mod Announcing
pub mod Answering
pub mod Launching
pub mod Workers
