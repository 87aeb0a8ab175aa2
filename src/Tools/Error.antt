-- ===== src/Tools/Error.antt =====
-- `ToolError` of crates/joplin-mcpd/src/mcp/tools.rs, `IndexStatus` with the text that it serializes
-- to. The warning that `internal` logs is left out: it changes nothing.
use joplin_mcp_rust.Prelude.{
  ℕ, String, [], ◌∷◌, Option, none, some, Result, ok, err, str_eq, ◌<>◌, if◌then◌else◌,
}
use joplin_mcp_rust.Json.{Value, string, number, null, pos_int, obj}
use joplin_mcp_rust.Contracts.{ErrorCode, code_text}

pub record ToolError : Type 0 where
  pub code : ErrorCode
  pub message : String
  pub body : Option Value

abbrev pub ToolResult : Type 0 → Type 0
ToolResult A = Result ToolError A

pub data IndexStatus : Type 0 where
  ready stale rebuilding error empty missing : IndexStatus

abbrev pub status_text : IndexStatus → String
status_text ready = "ready"
status_text stale = "stale"
status_text rebuilding = "rebuilding"
status_text error = "error"
status_text empty = "empty"
status_text missing = "missing"

abbrev pub default_retry_after_seconds : ℕ
default_retry_after_seconds = 5

abbrev pub validation : String → ToolError
validation message = record { code = ErrorCode.validation; message = message; body = none }

abbrev pub index_not_ready : IndexStatus → ToolError
index_not_ready status = record {
  code = ErrorCode.index_not_ready;
  message = "index is not ready";
  body = some (
      obj (
        ("index_status", string (status_text status))
        ∷ ("retry_after_seconds", number (pos_int default_retry_after_seconds))
        ∷ []));
}

abbrev pub response_too_large : ℕ → ℕ → ToolError
response_too_large max_response_bytes actual_response_bytes = record {
  code = ErrorCode.validation;
  message = "serialized response exceeds mcp.max_response_bytes";
  body = some (
      obj (
        ("max_response_bytes", number (pos_int max_response_bytes))
        ∷ ("actual_response_bytes", number (pos_int actual_response_bytes))
        ∷ []));
}

abbrev pub not_found : String → ToolError
not_found message = record { code = ErrorCode.not_found; message = message; body = none }

abbrev pub internal : String → ToolError
internal message = record {
  code = ErrorCode.internal;
  message = message;
  body = some (obj (("error", string "internal_error") ∷ []));
}

abbrev or_null : Option Value → Value
or_null none = null
or_null (some v) = v

abbrev pub to_mcp_error : ToolError → Value
to_mcp_error e = obj (
    ("code", string (code_text e.code))
    ∷ ("message", string e.message)
    ∷ ("data", or_null e.body)
    ∷ [])

-- `IndexStatus::from_db`
unfoldable pub from_db : String → ToolResult IndexStatus
from_db value =
    if str_eq value "ready"
    then ok ready
    else if str_eq value "stale"
    then ok stale
    else if str_eq value "building"
    then ok rebuilding
    else if str_eq value "rebuilding"
    then ok rebuilding
    else if str_eq value "failed"
    then ok error
    else if str_eq value "error"
    then ok error
    else if str_eq value "empty"
    then ok empty
    else err (validation ("unknown index status " <> value))
