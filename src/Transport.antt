-- ===== src/Transport.antt =====
-- The JSON-RPC transport of crates/joplin-mcpd/src/mcp/transport.rs: the checks of a request, the
-- authentication, and the dispatch to the tools. The tools' queries, `to_string` of a value, the
-- version of the package and whether the timeout fires are fields of `Server`. The metrics and spans
-- are left out.
pub mod Dispatch
pub mod Laws
pub mod Admission
use joplin_mcp_rust.Prelude.{
  ℕ, ◌-◌, map_option, Bool, true, false, not, ◌&&◌, ◌||◌, String, List, [], ◌∷◌, map, Option, none,
  some, Result, ok, err, ◌>>=◌, ok_or, str_eq, if◌then◌else◌, chars, same, is_none, is_some,
  is_some_and, and_then, unwrap_or,
}
use joplin_mcp_rust.Contracts.{mcp_protocol_version}
use joplin_mcp_rust.Json.{
  Value, null, bool, number, string, array, object, neg_int, values, obj, end, get, lookup, as_str,
  as_object,
}
use joplin_mcp_rust.Time.{DateTime, seconds}
use joplin_mcp_rust.Tools.Error.{ToolError, ToolResult, validation, internal, to_mcp_error}
use joplin_mcp_rust.Tools.Schema.{ToolDefinition, tool_definitions}
use joplin_mcp_rust.Auth.Tokens.{
  Crypto, HmacKey, TokenRecord, Tables, TokenAuthError, authenticate_bearer, parse_bearer_token,
  touch_last_seen_if_stale,
}
use joplin_mcp_rust.Http.Headers.{Headers, text, accepts_json, has_json_content_type}

pub data McpAuth : Type 0 where
  syntax_only : McpAuth
  repository : List HmacKey → McpAuth

-- The tools as `call_tool` calls them: of the token's user, the last eight with the arguments.
pub record ToolBackend : Type 0 where
  pub status : ℕ → ToolResult Value
  pub list_notebooks : ℕ → ToolResult Value
  pub list_tags : ℕ → ToolResult Value
  pub get_notebook_tree : ℕ → ToolResult Value
  pub list_notes : ℕ → Value → ToolResult Value
  pub search_notes : ℕ → Value → ToolResult Value
  pub get_note : ℕ → Value → ToolResult Value
  pub get_note_excerpt : ℕ → Value → ToolResult Value
  pub get_recent_notes : ℕ → Value → ToolResult Value
  pub get_notes_by_tag : ℕ → Value → ToolResult Value
  pub get_changes_since : ℕ → Value → ToolResult Value
  pub get_note_resources : ℕ → Value → ToolResult Value

-- `backend` is none where `ApiBackend` is not `Repository`.
pub record Server : Type 0 where
  pub crypto : Crypto
  pub shutting_down : Bool
  pub mcp_auth : McpAuth
  pub backend : Option ToolBackend
  pub finishes_in_time : Bool
  pub to_string : Value → String
  pub cargo_pkg_version : String

-- A status alone or with a text, or a JSON-RPC response; `panics` where the code would.
pub data Response : Type 0 where
  status_code : ℕ → Response
  json_rpc_response : Value → Response
  panics : Response

abbrev pub jsonrpc_invalid_request : ℕ
jsonrpc_invalid_request = 32600

abbrev pub jsonrpc_method_not_found : ℕ
jsonrpc_method_not_found = 32601

abbrev pub jsonrpc_invalid_params : ℕ
jsonrpc_invalid_params = 32602

abbrev pub jsonrpc_tool_error : ℕ
jsonrpc_tool_error = 32000

abbrev pub last_seen_update_interval : DateTime
last_seen_update_interval = seconds 300

unfoldable pub authenticate :
    Server → Headers → DateTime → Tables → Result TokenAuthError (Option TokenRecord) × Tables
unfolding parse_bearer_token authenticate_bearer touch_last_seen_if_stale
authenticate server headers now tables = elim server.mcp_auth [
  | syntax_only ↦ elim (parse_bearer_token server.crypto (text headers.authorization)) [
    | ok raw ↦ (ok none, tables)
    | err e ↦ (err e, tables)
  ]
  | repository hmac_keys ↦
      elim (authenticate_bearer server.crypto (text headers.authorization) hmac_keys now tables) [
        | ok token ↦ (
          ok (some token),
          (touch_last_seen_if_stale token.row.id now last_seen_update_interval tables).1,
        )
        | err e ↦ (err e, tables)
      ]
]

abbrev pub json_rpc_result : Value → Value → Value
json_rpc_result id result = obj (("jsonrpc", string "2.0") ∷ ("id", id) ∷ ("result", result) ∷ [])

abbrev or_null : Option Value → Value
or_null none = null
or_null (some data_) = data_

-- The code is minus the number.
abbrev pub json_rpc_error : Value → ℕ → String → Option Value → Value
json_rpc_error id code message data_ = obj (
    ("jsonrpc", string "2.0")
    ∷ ("id", id)
    ∷ (
      "error",
      obj (
          ("code", number (neg_int (code - 1)))
          ∷ ("message", string message)
          ∷ ("data", or_null data_)
          ∷ []),
    )
    ∷ [])

abbrev pub tool_call_result : Server → Value → Value
tool_call_result server result = obj (
    (
      "content",
      array (
          values
            (obj (("type", string "text") ∷ ("text", string (server.to_string result)) ∷ []) ∷ [])),
    )
    ∷ ("structuredContent", result)
    ∷ ("isError", bool false)
    ∷ [])

abbrev pub initialize_result : Server → Value
initialize_result server = obj (
    ("protocolVersion", string mcp_protocol_version)
    ∷ ("capabilities", obj (("tools", obj []) ∷ []))
    ∷ (
      "serverInfo",
      obj (("name", string "joplin-mcpd") ∷ ("version", string server.cargo_pkg_version) ∷ []),
    )
    ∷ [])

unfoldable pub is_initialize_request : Value → Bool
unfolding get as_str
is_initialize_request body =
    is_some_and (and_then (get body "method") as_str) (λ m. str_eq m "initialize")

unfoldable pub is_json_rpc_notification_or_response : Value → Bool
unfolding get
is_json_rpc_notification_or_response body = is_none (get body "id") || is_none (get body "method")

abbrev pub is_null : Value → Bool
is_null null = true
is_null _ = false

unfoldable pub null_request_id_error : Value → Option Value
unfolding get
null_request_id_error body =
    if is_some (get body "method") && is_some_and (get body "id") is_null
    then some (json_rpc_error null jsonrpc_invalid_request "request id must not be null" none)
    else none

-- `validate_protocol_version`, an error, BAD_REQUEST, as `false`.
unfoldable pub validate_protocol_version : Headers → Value → Bool
unfolding is_initialize_request
validate_protocol_version headers body = elim (text headers.mcp_protocol_version) [
  | some version ↦ same version (chars mcp_protocol_version)
  | none ↦ is_initialize_request body
]

-- The `match` of `call_tool`.
unfoldable pub run_tool : ToolBackend → ℕ → String → Value → ToolResult Value
run_tool tools user name arguments =
    if str_eq name "status"
    then tools.status user
    else if str_eq name "list_notebooks"
    then tools.list_notebooks user
    else if str_eq name "list_tags"
    then tools.list_tags user
    else if str_eq name "list_notes"
    then tools.list_notes user arguments
    else if str_eq name "search_notes"
    then tools.search_notes user arguments
    else if str_eq name "get_note"
    then tools.get_note user arguments
    else if str_eq name "get_note_excerpt"
    then tools.get_note_excerpt user arguments
    else if str_eq name "get_recent_notes"
    then tools.get_recent_notes user arguments
    else if str_eq name "get_notes_by_tag"
    then tools.get_notes_by_tag user arguments
    else if str_eq name "get_notebook_tree"
    then tools.get_notebook_tree user
    else if str_eq name "get_changes_since"
    then tools.get_changes_since user arguments
    else if str_eq name "get_note_resources"
    then tools.get_note_resources user arguments
    else err (validation "unknown tool")

unfoldable pub call_tool : Server → Option TokenRecord → Value → ToolResult Value
unfolding run_tool get lookup as_object as_str
call_tool server token body = do
  holder ← ok_or token (validation "tools/call requires repository auth")
  params ←
      ok_or (and_then (get body "params") as_object)
        (validation "tools/call params must be an object")
  name ←
      ok_or (and_then (lookup "name" params) as_str)
        (validation "tools/call missing required field name")
  tools ← ok_or server.backend (validation "tools/call backend is not configured")
  run_tool tools holder.row.user_id name (unwrap_or (lookup "arguments" params) (object end))

unfoldable pub dispatch_tool_call : Server → Option TokenRecord → Value → ToolResult Value
unfolding call_tool
dispatch_tool_call server token body =
    if server.finishes_in_time
    then call_tool server token body
    else err (internal "MCP tool timed out")

abbrev pub answer_tool_call : Server → Value → ToolResult Value → Value
answer_tool_call server id (ok result) = json_rpc_result id (tool_call_result server result)
answer_tool_call server id (err error) =
    json_rpc_error id jsonrpc_tool_error error.message (some (to_mcp_error error))

abbrev pub tool_value : ToolDefinition → Value
tool_value tool = obj (
    ("name", string tool.name)
    ∷ ("description", string tool.description)
    ∷ ("inputSchema", tool.input_schema)
    ∷ [])

unfoldable pub tools_list_response : Value
unfolding tool_definitions
tools_list_response = obj (("tools", array (values (map tool_value tool_definitions))) ∷ [])

-- The answer to a method, for a request with this id.
abbrev pub answer_method : Server → Option TokenRecord → Value → Value → String → Value
answer_method server token body id method =
    if str_eq method "initialize"
    then json_rpc_result id (initialize_result server)
    else if str_eq method "tools/list"
    then json_rpc_result id tools_list_response
    else if str_eq method "tools/call"
    then answer_tool_call server id (dispatch_tool_call server token body)
    else json_rpc_error id jsonrpc_method_not_found "method not found" none

abbrev pub answer_request : Server → Option TokenRecord → Value → Value → Option String → Value
answer_request server token body id none =
    json_rpc_error id jsonrpc_invalid_params "missing JSON-RPC method" none
answer_request server token body id (some method) = answer_method server token body id method

-- The `expect` on the id panics where there is none.
unfoldable pub dispatch_json_rpc_request : Server → Option TokenRecord → Value → Option Value
unfolding get as_str dispatch_tool_call tools_list_response
dispatch_json_rpc_request server token body =
    map_option (λ id. answer_request server token body id (and_then (get body "method") as_str))
      (get body "id")

abbrev pub or_panic : Option Value → Response
or_panic none = panics
or_panic (some value) = json_rpc_response value

-- What follows a successful authentication.
unfoldable pub respond : Server → Option TokenRecord → Value → Response
unfolding null_request_id_error is_json_rpc_notification_or_response dispatch_json_rpc_request
respond server token body = elim (null_request_id_error body) [
  | some error ↦ json_rpc_response error
  | none ↦
      if is_json_rpc_notification_or_response body
      then status_code 202
      else or_panic (dispatch_json_rpc_request server token body)
]

abbrev pub authenticated :
    (Option TokenRecord → Value → Response)
    → Tables
    → Value
    → Result TokenAuthError (Option TokenRecord) × Tables
    → Response × Tables
authenticated answer tables body (err e, after) = (status_code 401, tables)
authenticated answer tables body (ok token, after) = (answer token body, after)

unfoldable pub mcp_post : Server → Headers → Value → DateTime → Tables → Response × Tables
unfolding authenticate respond validate_protocol_version accepts_json has_json_content_type
mcp_post server headers body now tables =
    if server.shutting_down
    then (status_code 503, tables)
    else if not (accepts_json headers)
    then (status_code 406, tables)
    else if not (has_json_content_type headers)
    then (status_code 415, tables)
    else if not (validate_protocol_version headers body)
    then (status_code 400, tables)
    else authenticated (respond server) tables body (authenticate server headers now tables)
