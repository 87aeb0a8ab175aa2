-- ===== src/Http.antt =====
-- The HTTP side of crates/joplin-mcpd/src: the headers that its checks read, the origin policy of
-- security.rs, and of http.rs the bootstrap rate limiter, the token endpoints and the escaping of HTML.
pub mod Headers
pub mod Html
pub mod Origin
pub mod RateLimit
pub mod TokenApi
