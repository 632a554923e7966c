-- ===== src/Agent.antt =====
-- src/agent: the per-user agent that holds the decrypted profile in memory.
pub mod ListCache
pub mod RemoteClient
pub mod Disk
pub mod State
pub mod Server
pub mod Connection
