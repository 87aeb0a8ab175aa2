-- ===== src/Transport/Laws.antt =====
-- What every answer of the transport satisfies.
use joplin_mcp_rust.Prelude.{
  ℕ, ◌≡◌, refl, sym, ap, ◌∙◌, Bool, true, false, not, ◌&&◌, String, Option, none, some, Result, ok,
  err, str_eq, if◌then◌else◌, is_some, Bool-cases, Option-cases, inl, inr, arith, ◌⊎◌,
}
use joplin_mcp_rust.Json.{Value, null, bool, number, string, array, object, get, lookup, as_str}
use joplin_mcp_rust.Time.{DateTime}
use joplin_mcp_rust.Tools.Error.{ToolResult}
use joplin_mcp_rust.Auth.Tokens.{TokenRecord, Tables, TokenAuthError}
use joplin_mcp_rust.Http.Headers.{Headers, accepts_json, has_json_content_type}
use joplin_mcp_rust.Transport.{
  Server, Response, status_code, json_rpc_response, panics, authenticate, authenticated, is_null,
  null_request_id_error, is_json_rpc_notification_or_response, validate_protocol_version,
  answer_method, answer_request, answer_tool_call, dispatch_tool_call, dispatch_json_rpc_request,
  respond, mcp_post,
}

-- A JSON-RPC response to a body: it carries the body's id, and either a result or an error, not both.
abbrev pub Answers : Value → Value → Type 0
Answers body answer =
    (get answer "id" ≡ get body "id")
    × (is_some (get answer "result") ≡ not (is_some (get answer "error")))

abbrev HasId : Value → Value → Type 0
HasId id answer =
    (get answer "id" ≡ some id)
    × (is_some (get answer "result") ≡ not (is_some (get answer "error")))

tool_call-HasId :
    (server : Server) (id : Value) (result : ToolResult Value)
    → HasId id (answer_tool_call server id result)
unfolding get lookup
tool_call-HasId server id (ok value) = (refl, refl)
tool_call-HasId server id (err error) = (refl, refl)

method-HasId :
    (server : Server) (token : Option TokenRecord) (body id : Value) (method : String)
    → HasId id (answer_method server token body id method)
unfolding get lookup
method-HasId server token body id method = elim (Bool-cases (str_eq method "initialize")) [
  | inl holds ↦ rw holds (refl, refl)
  | inr other ↦ elim (Bool-cases (str_eq method "tools/list")) [
    | inl holds ↦ rw (other, holds) (refl, refl)
    | inr not_list ↦ elim (Bool-cases (str_eq method "tools/call")) [
      | inl holds ↦
          rw (other, not_list, holds)
            (tool_call-HasId server id (dispatch_tool_call server token body))
      | inr not_call ↦ rw (other, not_list, not_call) (refl, refl)
    ]
  ]
]

request-HasId :
    (server : Server) (token : Option TokenRecord) (body id : Value) (method : Option String)
    → HasId id (answer_request server token body id method)
unfolding get lookup
request-HasId server token body id none = (refl, refl)
request-HasId server token body id (some method) = method-HasId server token body id method

-- A response that does not panic, and answers the body if it is a JSON-RPC response.
abbrev pub IsAnswer : Value → Response → Type 0
IsAnswer body (status_code code) = Unit
IsAnswer body (json_rpc_response answer) = Answers body answer
IsAnswer body panics = ⊥

guard_false : (b : Bool) (o : Option Value) → (if b && false then o else none) ≡ none
guard_false b o = ground arith

null_id : (id : Value) → is_null id ≡ true → id ≡ null
null_id null h = refl
null_id (bool b) h = absurd cc
null_id (number n) h = absurd cc
null_id (string s) h = absurd cc
null_id (array vs) h = absurd cc
null_id (object ms) h = absurd cc

respond_null :
    (server : Server) (token : Option TokenRecord) (body method id : Value)
    → get body "method" ≡ some method
    → get body "id" ≡ some id
    → is_null id ≡ true
    → IsAnswer body (respond server token body)
unfolding respond null_request_id_error get lookup
respond_null server token body method id with_method with_id holds =
    rw (respond, null_request_id_error, with_method, with_id, holds)
      (ap (λ i. some i) (sym (null_id id holds)) ∙ sym with_id, refl)

respond_id :
    (server : Server) (token : Option TokenRecord) (body method id : Value)
    → get body "method" ≡ some method
    → get body "id" ≡ some id
    → is_null id ≡ false
    → IsAnswer body (respond server token body)
unfolding respond null_request_id_error is_json_rpc_notification_or_response
    dispatch_json_rpc_request
respond_id server token body method id with_method with_id fails =
    let (same_id, one_of) = request-HasId server token body id (as_str method) in
    rw
      (
        respond, null_request_id_error, with_method, with_id, fails,
        is_json_rpc_notification_or_response, with_id, with_method, dispatch_json_rpc_request,
        with_id,
      )
      (same_id, one_of)

-- Without an id or a method the body is accepted with no answer.
respond_accepted :
    (server : Server) (token : Option TokenRecord) (body : Value)
    → null_request_id_error body ≡ none
    → is_json_rpc_notification_or_response body ≡ true
    → IsAnswer body (respond server token body)
unfolding respond
respond_accepted server token body no_error accepted = rw (respond, no_error, accepted) tt

respond-IsAnswer :
    (server : Server) (token : Option TokenRecord) (body : Value)
    → IsAnswer body (respond server token body)
unfolding null_request_id_error is_json_rpc_notification_or_response
respond-IsAnswer server token body = elim (Option-cases (get body "id")) [
  | inl no_id ↦
      respond_accepted server token body
        (rw (null_request_id_error, no_id) (guard_false (is_some (get body "method")) _))
        (rw (is_json_rpc_notification_or_response, no_id) refl)
  | inr (id, with_id) ↦ elim (Option-cases (get body "method")) [
    | inl no_method ↦
        respond_accepted server token body (rw (null_request_id_error, no_method) refl)
          (rw (is_json_rpc_notification_or_response, with_id, no_method) refl)
    | inr (method, with_method) ↦ elim (Bool-cases (is_null id)) [
      | inl holds ↦ respond_null server token body method id with_method with_id holds
      | inr fails ↦ respond_id server token body method id with_method with_id fails
    ]
  ]
]

-- The checks that a request has passed when its body is read.
abbrev pub Passed : Server → Headers → Value → DateTime → Tables → Type 0
Passed server headers body now tables =
    (server.shutting_down ≡ false)
    × (accepts_json headers ≡ true)
    × (has_json_content_type headers ≡ true)
    × (validate_protocol_version headers body ≡ true)
    × ((token : Option TokenRecord) × ((authenticate server headers now tables).0 ≡ ok token))

-- The checks of `mcp_post`, one behind the other.
guards :
    (down accepts json version : Bool) (auth : Result TokenAuthError (Option TokenRecord) × Tables)
    (answer : Option TokenRecord → Value → Response) (body : Value) (tables : Tables)
    → let outcome =
        if down
        then (status_code 503, tables)
        else if not accepts
        then (status_code 406, tables)
        else if not json
        then (status_code 415, tables)
        else if not version
        then (status_code 400, tables)
        else authenticated answer tables body auth in
      ((code : ℕ) × (outcome.0 ≡ status_code code))
      ⊎ (((down ≡ false)
            × (accepts ≡ true)
            × (json ≡ true)
            × (version ≡ true)
            × ((token : Option TokenRecord) × (auth.0 ≡ ok token)))
          × ((token : Option TokenRecord) × (outcome.0 ≡ answer token body)))
guards true accepts json version auth answer body tables = inl (503, refl)
guards false false json version auth answer body tables = inl (406, refl)
guards false true false version auth answer body tables = inl (415, refl)
guards false true true false auth answer body tables = inl (400, refl)
guards false true true true (err e, after) answer body tables = inl (401, refl)
guards false true true true (ok token, after) answer body tables =
    inr ((refl, refl, refl, refl, (token, refl)), (token, refl))

-- Either a check has failed, or all have passed and the response is the one to the body.
abbrev pub Handled : Server → Headers → Value → DateTime → Tables → Response → Type 0
Handled server headers body now tables response =
    ((code : ℕ) × (response ≡ status_code code))
    ⊎ (Passed server headers body now tables
        × ((token : Option TokenRecord) × (response ≡ respond server token body)))

pub handled :
    (server : Server) (headers : Headers) (body : Value) (now : DateTime) (tables : Tables)
    → Handled server headers body now tables ((mcp_post server headers body now tables).0)
unfolding mcp_post
handled server headers body now tables =
    guards server.shutting_down (accepts_json headers) (has_json_content_type headers)
      (validate_protocol_version headers body) (authenticate server headers now tables)
      (respond server) body tables

-- Every response to a request is a status or a JSON-RPC response with the id of the body and exactly
-- one of a result and an error: the server does not panic on the id.
pub mcp_post-IsAnswer :
    (server : Server) (headers : Headers) (body : Value) (now : DateTime) (tables : Tables)
    → IsAnswer body ((mcp_post server headers body now tables).0)
mcp_post-IsAnswer server headers body now tables = elim (handled server headers body now tables) [
  | inl (code, refused) ↦ rw refused tt
  | inr (admitted, (token, answered)) ↦ rw answered (respond-IsAnswer server token body)
]
