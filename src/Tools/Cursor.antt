-- ===== src/Tools/Cursor.antt =====
-- The signed cursors of crates/joplin-mcpd/src/mcp/tools.rs: `CursorPayload`, `filter_hash`,
-- `encode_cursor`, `decode_cursor`, `sign_cursor_body` and the body cursors of `get_note`. A cursor is
-- the list of its code points. serde_json, base64, HMAC-SHA256 and SHA-256 are third-party code: the
-- record `Codec` holds them, and what the theorems need of them are named hypotheses.
pub mod Laws
pub mod Values
use joplin_mcp_rust.Prelude.{
  ℕ, Bool, true, false, String, List, [], ◌∷◌, ◌++◌, Option, none, some, ok, err, ◌>>=◌, ◌>>◌,
  ok_or, ◌==◌, if◌then◌else◌, not, ◌&&◌, str_eq, chars, split, same,
}
use joplin_mcp_rust.Json.{Value, string, obj}
use joplin_mcp_rust.Tools.Error.{ToolError, ToolResult, validation, internal}

abbrev pub cursor_prefix : List ℕ
cursor_prefix = chars "jmc1"

abbrev pub cursor_version : ℕ
cursor_version = 1

pub record BodyCursorPayload : Type 0 where
  pub note_id : String
  pub indexed_note_version : String
  pub next_body_offset : ℕ

pub record CursorPayload : Type 0 where
  pub version : ℕ
  pub tool : String
  pub filter_hash : String
  pub sort_keys : List String
  pub last_values : List Value
  pub body : Option BodyCursorPayload

-- The third-party code that a cursor goes through.
pub record Codec : Type 0 where
  pub to_vec : CursorPayload → Option (List ℕ)
  pub from_slice : List ℕ → Option CursorPayload
  pub value_to_vec : Value → List ℕ
  pub base64_encode : List ℕ → List ℕ
  pub base64_decode : List ℕ → Option (List ℕ)
  pub base64_text : List ℕ → String
  pub hmac : List ℕ → List ℕ → Option (List ℕ)
  pub sha256 : List ℕ → List ℕ

abbrev reject_if : Bool → String → ToolResult Unit
reject_if true message = err (validation message)
reject_if false message = ok tt

module _ (c : Codec) where
  unfoldable pub filter_hash : Value → String
  filter_hash filter = c.base64_text (c.sha256 (c.value_to_vec filter))

  unfoldable pub sign_cursor_body : List ℕ → List ℕ → ToolResult (List ℕ)
  sign_cursor_body body signing_key = do
    mac ←
        ok_or (c.hmac signing_key body)
          (validation "cursor signing key must be valid for HMAC-SHA256")
    ok (c.base64_encode mac)

  unfoldable pub encode_cursor : CursorPayload → List ℕ → ToolResult (List ℕ)
  encode_cursor payload signing_key = do
    reject_if (not (payload.version == cursor_version)) "unsupported cursor version"
    bytes ← ok_or (c.to_vec payload) (internal "failed to encode cursor")
    let body = c.base64_encode bytes
    signature ← sign_cursor_body body signing_key
    ok (cursor_prefix ++ (b'.' ∷ (body ++ (b'.' ∷ signature))))

  -- What follows the split of a cursor into its parts.
  unfoldable pub check_payload : CursorPayload → String → String → ToolResult CursorPayload
  check_payload payload expected_tool expected_filter_hash = do
    reject_if (not (payload.version == cursor_version)) "unsupported cursor version"
    reject_if (not (str_eq payload.tool expected_tool)) "cursor does not match tool"
    reject_if (not (str_eq payload.filter_hash expected_filter_hash))
        "cursor does not match filters"
    ok payload

  unfoldable pub decode_parts : List (List ℕ) → List ℕ → String → String → ToolResult CursorPayload
  decode_parts (prefix ∷ body ∷ signature ∷ []) signing_key expected_tool expected_filter_hash = do
    reject_if (not (same prefix cursor_prefix)) "invalid cursor"
    expected_signature ← sign_cursor_body body signing_key
    reject_if (not (same signature expected_signature)) "invalid cursor"
    bytes ← ok_or (c.base64_decode body) (validation "invalid cursor")
    payload ← ok_or (c.from_slice bytes) (validation "invalid cursor")
    check_payload payload expected_tool expected_filter_hash
  decode_parts _ signing_key expected_tool expected_filter_hash = err (validation "invalid cursor")

  unfoldable pub decode_cursor : List ℕ → List ℕ → String → String → ToolResult CursorPayload
  decode_cursor cursor = decode_parts (split b'.' cursor)

  abbrev pub note_filter : String → Value
  note_filter note_id = obj (("note_id", string note_id) ∷ [])

  unfoldable pub decode_body_cursor : List ℕ → List ℕ → String → String → ToolResult ℕ
  decode_body_cursor cursor signing_key note_id indexed_note_version = do
    payload ← decode_cursor cursor signing_key "get_note" (filter_hash (note_filter note_id))
    body ← ok_or payload.body (validation "invalid get_note body cursor")
    reject_if (not (str_eq body.note_id note_id)) "body cursor does not match note"
    reject_if (not (str_eq body.indexed_note_version indexed_note_version)) "body cursor is stale"
    ok body.next_body_offset

  abbrev pub body_payload : String → String → ℕ → CursorPayload
  body_payload note_id indexed_note_version next_body_offset = record {
    version = cursor_version;
    tool = "get_note";
    filter_hash = filter_hash (note_filter note_id);
    sort_keys = [];
    last_values = [];
    body = some (record {
      note_id = note_id;
      indexed_note_version = indexed_note_version;
      next_body_offset = next_body_offset;
    });
  }

  unfoldable pub encode_body_cursor : String → String → ℕ → List ℕ → ToolResult (List ℕ)
  encode_body_cursor note_id indexed_note_version next_body_offset =
      encode_cursor (body_payload note_id indexed_note_version next_body_offset)
