-- ===== src/Indexer.antt =====
-- crates/joplin-mcpd/src/indexer
pub mod State
pub mod Item
pub mod Tables
pub mod Parser
pub mod Content
pub mod Rows
pub mod Source
pub mod Refresh
pub mod Rebuild
pub mod Worker
