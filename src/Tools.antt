-- ===== src/Tools.antt =====
-- crates/joplin-mcpd/src/mcp/tools.rs
pub mod Error
pub mod Schema
pub mod Validate
pub mod Truncate
pub mod Cursor
pub mod Gate
pub mod Ilike
pub mod Listing
