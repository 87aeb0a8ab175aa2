-- ===== src/Checks/Transport.antt =====
-- A request of the transport.
use joplin_mcp_rust.Prelude.{
  ℕ, ◌≡◌, Bool, true, false, List, [], ◌∷◌, ◌++◌, Option, none, some, chars, is_some,
}
use joplin_mcp_rust.Prelude.Int.{pos}
use joplin_mcp_rust.Json.{Value, string, number, null, pos_int, obj}
use joplin_mcp_rust.Http.Headers.{Headers}
use joplin_mcp_rust.Auth.Tokens.{Crypto, Tables}
use joplin_mcp_rust.Tools.Schema.{tool_definitions}
use joplin_mcp_rust.Tools.Validate.{find_tool}
use joplin_mcp_rust.Tools.Gate.Laws.{is_ok}
use joplin_mcp_rust.Transport.{Server, syntax_only, mcp_post, run_tool}
use joplin_mcp_rust.Transport.Dispatch.{always, run_tool-is_published}
use joplin_mcp_rust.Transport.Laws.{IsAnswer, mcp_post-IsAnswer}

-- Every token is well formed for this base64.
abbrev any_token : Crypto
any_token = record {
  base64_encode = λ b. b;
  base64_decode = λ b. some (
      0 ∷ 0 ∷ 0 ∷ 0 ∷ 0 ∷ 0 ∷ 0 ∷ 0 ∷ 0 ∷ 0 ∷ 0 ∷ 0 ∷ 0 ∷ 0 ∷ 0 ∷ 0 ∷ 0 ∷ 0 ∷ 0 ∷ 0 ∷ 0 ∷ 0 ∷ 0 ∷ 0
      ∷ 0 ∷ 0 ∷ 0 ∷ 0 ∷ 0 ∷ 0 ∷ 0 ∷ 0 ∷ []);
  hmac_sha256 = λ key message. message;
}

abbrev demo_server : Server
demo_server = record {
  crypto = any_token;
  shutting_down = false;
  mcp_auth = syntax_only;
  backend = some (always null);
  finishes_in_time = true;
  to_string = λ v. "null";
  cargo_pkg_version = "0.1.0";
}

abbrev demo_headers : Headers
demo_headers = record {
  origin = none;
  referer = none;
  authorization = some (some (chars "Bearer mcp_x"));
  accept = some (some (chars "text/html, */*;q=0.8"));
  content_type = some (some (chars "Application/JSON; charset=utf-8"));
  mcp_protocol_version = none;
}

abbrev demo_body : Value
demo_body = obj (("id", number (pos_int 1)) ∷ ("method", string "initialize") ∷ [])

abbrev no_tables : Tables
no_tables = record { rows = []; users = λ u. none }

mcp_post-IsAnswer_example :
    IsAnswer demo_body ((mcp_post demo_server demo_headers demo_body (pos 0) no_tables).0)
mcp_post-IsAnswer_example = mcp_post-IsAnswer demo_server demo_headers demo_body (pos 0) no_tables

run_tool-is_published_example :
    is_ok (run_tool (always null) 1 "get_note" null)
    ≡ is_some (find_tool "get_note" tool_definitions)
run_tool-is_published_example = run_tool-is_published 1 "get_note" null null
