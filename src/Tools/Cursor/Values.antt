-- ===== src/Tools/Cursor/Values.antt =====
-- The values that the cursors of the list tools carry, of crates/joplin-mcpd/src/mcp/tools.rs: the
-- functions named `*_cursor_values` and `encode_*_cursor`, `SearchMode` and the choice of the fallback.
pub mod Laws
use joplin_mcp_rust.Prelude.{
  ℕ, Bool, true, false, not, ◌&&◌, ◌||◌, String, List, [], ◌∷◌, Option, none, some, Result, ok, err,
  ◌>>=◌, ◌>>◌, ok_or, str_eq, leb, ◌==◌, if◌then◌else◌, length, is_none, unwrap_or,
}
use joplin_mcp_rust.Prelude.Int.{ℤ, pos, negsuc, ltb_ℤ, eq_ℤ}
use joplin_mcp_rust.Json.{Value, string, number, pos_int, neg_int, as_str, as_i64}
use joplin_mcp_rust.Tools.Error.{ToolError, ToolResult, validation}
use joplin_mcp_rust.Tools.Cursor.{Codec, CursorPayload, cursor_version, encode_cursor}

-- `json!` of an `i64`
abbrev pub int : ℤ → Value
int (pos n) = number (pos_int n)
int (negsuc n) = number (neg_int n)

-- `payload.sort_keys != [...]`
abbrev pub same_keys : List String → List String → Bool
same_keys [] [] = true
same_keys [] (k ∷ ks) = false
same_keys (j ∷ js) [] = false
same_keys (j ∷ js) (k ∷ ks) = str_eq j k && same_keys js ks

abbrev pub time_and_id : List Value → String → String → String → ToolResult (ℤ × String)
time_and_id (time ∷ id ∷ []) shape time_error id_error = do
  updated_time ← ok_or (as_i64 time) (validation time_error)
  joplin_id ← ok_or (as_str id) (validation id_error)
  ok (updated_time, joplin_id)
time_and_id _ shape time_error id_error = err (validation shape)

abbrev pub time_keys : List String
time_keys = "updated_time" ∷ "joplin_id" ∷ []

unfoldable pub tag_cursor_values : CursorPayload → ToolResult (ℤ × String)
unfolding as_i64 as_str
tag_cursor_values payload =
    if not (same_keys payload.sort_keys time_keys)
    then err (validation "invalid get_notes_by_tag cursor")
    else time_and_id payload.last_values "invalid get_notes_by_tag cursor"
        "invalid get_notes_by_tag cursor updated_time" "invalid get_notes_by_tag cursor joplin_id"

unfoldable pub updated_desc_cursor_values : CursorPayload → ToolResult (ℤ × String)
unfolding as_i64 as_str
updated_desc_cursor_values payload =
    if not (same_keys payload.sort_keys time_keys)
    then err (validation "invalid note list cursor")
    else time_and_id payload.last_values "invalid note list cursor"
        "invalid note list cursor updated_time" "invalid note list cursor joplin_id"

unfoldable pub changes_cursor_values : CursorPayload → ToolResult (ℤ × String)
unfolding as_i64 as_str
changes_cursor_values payload =
    if not (same_keys payload.sort_keys time_keys)
    then err (validation "invalid get_changes_since cursor")
    else time_and_id payload.last_values "invalid get_changes_since cursor"
        "invalid get_changes_since cursor updated_time" "invalid get_changes_since cursor joplin_id"

abbrev pub time_payload : String → String → ℤ → String → CursorPayload
time_payload tool filter_hash updated_time joplin_id = record {
  version = cursor_version;
  tool = tool;
  filter_hash = filter_hash;
  sort_keys = time_keys;
  last_values = int updated_time ∷ string joplin_id ∷ [];
  body = none;
}

pub data SearchMode : Type 0 where
  full_text ilike_fallback : SearchMode

-- `SearchMode::cursor_value`
abbrev pub cursor_value : SearchMode → String
cursor_value full_text = "fts"
cursor_value ilike_fallback = "ilike"

unfoldable pub from_cursor_value : String → ToolResult SearchMode
from_cursor_value value =
    if str_eq value "fts"
    then ok full_text
    else if str_eq value "ilike"
    then ok ilike_fallback
    else err (validation "invalid search_notes cursor mode")

pub record SearchCursorValues : Type 0 where
  pub mode : SearchMode
  pub rank_key : ℤ
  pub updated_time : ℤ
  pub joplin_id : String

abbrev pub is_fallback : SearchMode → Bool
is_fallback full_text = false
is_fallback ilike_fallback = true

abbrev pub search_keys : List String
search_keys = "mode" ∷ "rank_key" ∷ "updated_time" ∷ "joplin_id" ∷ []

abbrev pub bad_rank_key : SearchMode → ℤ → Bool
bad_rank_key mode rank_key =
    ltb_ℤ rank_key (pos 0) || is_fallback mode && not (eq_ℤ rank_key (pos 0))

abbrev pub reject_rank : Bool → ToolResult Unit
reject_rank true = err (validation "invalid search_notes cursor rank_key")
reject_rank false = ok tt

abbrev pub search_values : List Value → ToolResult SearchCursorValues
search_values (mode_value ∷ rank_value ∷ time_value ∷ id_value ∷ []) = do
  mode_text ← ok_or (as_str mode_value) (validation "invalid search_notes cursor mode")
  mode ← from_cursor_value mode_text
  rank_key ← ok_or (as_i64 rank_value) (validation "invalid search_notes cursor rank_key")
  reject_rank (bad_rank_key mode rank_key)
  updated_time ← ok_or (as_i64 time_value) (validation "invalid search_notes cursor updated_time")
  joplin_id ← ok_or (as_str id_value) (validation "invalid search_notes cursor joplin_id")
  ok (record {
    mode = mode;
    rank_key = rank_key;
    updated_time = updated_time;
    joplin_id = joplin_id;
  })
search_values _ = err (validation "invalid search_notes cursor")

unfoldable pub search_cursor_values : CursorPayload → ToolResult SearchCursorValues
unfolding as_i64 as_str from_cursor_value
search_cursor_values payload =
    if same_keys payload.sort_keys ("rank" ∷ "updated_time" ∷ "joplin_id" ∷ [])
    then err (validation "stale search_notes cursor; repeat search without cursor")
    else if not (same_keys payload.sort_keys search_keys)
    then err (validation "invalid search_notes cursor")
    else search_values payload.last_values

abbrev pub search_payload : SearchCursorValues → String → CursorPayload
search_payload v filter_hash = record {
  version = cursor_version;
  tool = "search_notes";
  filter_hash = filter_hash;
  sort_keys = search_keys;
  last_values =
      string (cursor_value v.mode) ∷ int v.rank_key ∷ int v.updated_time ∷ string v.joplin_id ∷ [];
  body = none;
}

abbrev ilike_fallback_max_query_chars : ℕ
ilike_fallback_max_query_chars = 128

unfoldable pub search_notes_should_use_ilike_fallback : Option SearchCursorValues → Bool → ℕ → Bool
search_notes_should_use_ilike_fallback after fts_rows_empty query_char_count =
    is_none after && fts_rows_empty && leb query_char_count ilike_fallback_max_query_chars

module _ (c : Codec) where
  -- A note without an updated time counts as time 0.
  unfoldable pub encode_notes_by_tag_cursor :
      Option ℤ → String → String → List ℕ → ToolResult (List ℕ)
  unfolding encode_cursor
  encode_notes_by_tag_cursor updated_time joplin_id filter_hash =
      encode_cursor c
        (time_payload "get_notes_by_tag" filter_hash (unwrap_or updated_time (pos 0)) joplin_id)

  unfoldable pub encode_updated_desc_cursor :
      String → ℤ → String → String → List ℕ → ToolResult (List ℕ)
  unfolding encode_cursor
  encode_updated_desc_cursor tool updated_time joplin_id filter_hash =
      encode_cursor c (time_payload tool filter_hash updated_time joplin_id)

  unfoldable pub encode_changes_since_cursor : ℤ → String → String → List ℕ → ToolResult (List ℕ)
  unfolding encode_cursor
  encode_changes_since_cursor updated_time joplin_id filter_hash =
      encode_cursor c (time_payload "get_changes_since" filter_hash updated_time joplin_id)

  unfoldable pub encode_search_cursor :
      ℤ → Option ℤ → String → SearchMode → String → List ℕ → ToolResult (List ℕ)
  unfolding encode_cursor
  encode_search_cursor rank_key updated_time joplin_id mode filter_hash = encode_cursor c (
      search_payload
        (record {
          mode = mode;
          rank_key = rank_key;
          updated_time = unwrap_or updated_time (pos 0);
          joplin_id = joplin_id;
        })
        filter_hash)
