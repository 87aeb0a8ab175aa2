-- ===== src/Transport/Admission.antt =====
-- Which requests crates/joplin-mcpd/src/mcp/transport.rs answers with a JSON-RPC response.
use joplin_mcp_rust.Prelude.{
  ℕ, ◌≡◌, ◌⊎◌, true, false, List, ◌++◌, map, Option, none, some, Result, ok, err, chars, trim,
  before, split, to_ascii_lowercase, Any,
}
use joplin_mcp_rust.Json.{Value, string, get}
use joplin_mcp_rust.Time.{DateTime}
use joplin_mcp_rust.Auth.Tokens.{
  Crypto, TokenRecord, Tables, TokenAuthError, validate_raw_token, touch_last_seen_if_stale,
}
use joplin_mcp_rust.Auth.Tokens.Laws.{IssuedAs, IsUsable}
use joplin_mcp_rust.Http.Headers.{Headers, text}
use joplin_mcp_rust.Transport.{Server, McpAuth, syntax_only, repository, last_seen_update_interval}

-- A media type, without its parameters, in whatever case.
abbrev IsJson : List ℕ → Type 0
IsJson part = map to_ascii_lowercase (trim (before b';' part)) ≡ chars "application/json"

-- A part of an Accept header that lets JSON through.
abbrev TakesJson : List ℕ → Type 0
TakesJson part =
    ((trim (before b';' part) ≡ chars "*/*") ⊎ (trim (before b';' part) ≡ chars "application/*"))
    ⊎ IsJson part

abbrev AcceptsJson : Option (List ℕ) → Type 0
AcceptsJson none = Unit
AcceptsJson (some accept) = Any TakesJson (split b',' accept)

abbrev HasJsonBody : Option (List ℕ) → Type 0
HasJsonBody none = ⊥
HasJsonBody (some content_type) = IsJson content_type

-- This version, or none in an initialize request.
abbrev SpeaksVersion : Option (List ℕ) → Value → Type 0
SpeaksVersion (some version) body = version ≡ chars "2025-06-18"
SpeaksVersion none body = get body "method" ≡ some (string "initialize")

-- The request has a well-formed bearer token, and where the server has a repository, one that it issued
-- and that is neither revoked nor expired, of a user who is not disabled.
abbrev IsSignedIn : Crypto → McpAuth → Option (List ℕ) → DateTime → Tables → Type 0
IsSignedIn c syntax_only authorization now tables =
    (raw : List ℕ) × (authorization ≡ some (chars "Bearer " ++ raw))
    × (validate_raw_token c raw ≡ true)
IsSignedIn c (repository keys) authorization now tables =
    (token : TokenRecord) × (raw : List ℕ) × (authorization ≡ some (chars "Bearer " ++ raw))
    × (validate_raw_token c raw ≡ true)
    × Any (IssuedAs c tables raw token) keys
    × IsUsable now token

abbrev pub IsAdmitted : Server → Headers → Value → DateTime → Tables → Type 0
IsAdmitted server headers body now tables =
    (server.shutting_down ≡ false)
    × AcceptsJson (text headers.accept)
    × HasJsonBody (text headers.content_type)
    × SpeaksVersion (text headers.mcp_protocol_version) body
    × IsSignedIn server.crypto server.mcp_auth (text headers.authorization) now tables

-- What the two ways of authentication make of the answer that they wait for.
abbrev when_parsed :
    Tables → Result TokenAuthError (List ℕ) → Result TokenAuthError (Option TokenRecord) × Tables
when_parsed tables parsed = elim parsed [ ok raw ↦ (ok none, tables) | err e ↦ (err e, tables) ]

abbrev when_found :
    DateTime
    → Tables
    → Result TokenAuthError TokenRecord
    → Result TokenAuthError (Option TokenRecord) × Tables
when_found now tables found = elim found [
  | ok token ↦ (
    ok (some token),
    (touch_last_seen_if_stale token.row.id now last_seen_update_interval tables).1,
  )
  | err e ↦ (err e, tables)
]
