-- ===== src/Server.antt =====
-- src/server.rs: the receiving end.
pub mod Batch
pub mod Progress
pub mod Connection
pub mod Accept
pub mod Builder
pub mod Queue
