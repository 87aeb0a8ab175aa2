-- ===== src/Contracts.antt =====
-- crates/joplin-mcpd/src/contracts.rs: the constants, the error codes and the two identifier tests.
use joplin_mcp_rust.Prelude.{
  Bool, ◌&&◌, ◌||◌, String, chars, bytes, length, all, ◌==◌, is_ascii_hexdigit,
  is_ascii_alphanumeric,
}

abbrev pub mcp_protocol_version : String
mcp_protocol_version = "2025-06-18"

abbrev pub read_only_mode : String
read_only_mode = "read-only"

abbrev pub unsupported_shared_notebooks : String
unsupported_shared_notebooks = "unsupported"

pub data ErrorCode : Type 0 where
  validation auth not_found index_not_ready rate_limited unsupported internal : ErrorCode

-- `Display` of a code, which is its serialized form too.
abbrev pub code_text : ErrorCode → String
code_text validation = "validation"
code_text auth = "auth"
code_text not_found = "not_found"
code_text index_not_ready = "index_not_ready"
code_text rate_limited = "rate_limited"
code_text unsupported = "unsupported"
code_text internal = "internal"

unfoldable pub is_joplin_id : String → Bool
unfolding bytes
is_joplin_id value =
    length (bytes (chars value)) == 32 && all is_ascii_hexdigit (bytes (chars value))

unfoldable pub is_joplin_user_id : String → Bool
unfolding is_joplin_id
is_joplin_user_id value =
    is_joplin_id value
    || length (bytes (chars value)) == 22
      && all (λ byte. is_ascii_alphanumeric byte || byte == b'_' || byte == b'-')
          (bytes (chars value))
