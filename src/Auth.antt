-- ===== src/Auth.antt =====
-- The bearer tokens of crates/joplin-mcpd/src/auth/tokens.rs.
pub mod Tokens
