-- ===== src/Http/Headers.antt =====
-- The request headers that crates/joplin-mcpd/src/security.rs and mcp/transport.rs read, and their
-- tests on media types. A header is absent, or present with its text if `to_str` gives one.
use joplin_mcp_rust.Prelude.{
  ℕ, Bool, true, ◌||◌, List, Option, none, some, is_some, is_some_and, any, chars, split, before,
  trim, same, eq_ignore_ascii_case, strip_prefix,
}

abbrev pub Header : Type 0
Header = Option (Option (List ℕ))

pub record Headers : Type 0 where
  pub origin : Header
  pub referer : Header
  pub authorization : Header
  pub accept : Header
  pub content_type : Header
  pub mcp_protocol_version : Header

-- `headers.get(name).and_then(|value| value.to_str().ok())`
abbrev pub text : Header → Option (List ℕ)
text none = none
text (some value) = value

unfoldable pub has_bearer_authorization : Headers → Bool
has_bearer_authorization headers =
    is_some_and (text headers.authorization)
      (λ value. is_some (strip_prefix (chars "Bearer ") value))

-- `split(';').next()` is what stands before the first `;`.
unfoldable pub has_json_content_type : Headers → Bool
has_json_content_type headers =
    is_some_and (text headers.content_type)
      (λ value. eq_ignore_ascii_case (trim (before b';' value)) (chars "application/json"))

abbrev pub accepts_part : List ℕ → Bool
accepts_part part =
    same (trim (before b';' part)) (chars "*/*")
    || same (trim (before b';' part)) (chars "application/*")
    || eq_ignore_ascii_case (trim (before b';' part)) (chars "application/json")

abbrev pub accepts : Option (List ℕ) → Bool
accepts none = true
accepts (some value) = any accepts_part (split b',' value)

unfoldable pub accepts_json : Headers → Bool
accepts_json headers = accepts (text headers.accept)
