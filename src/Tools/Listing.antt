-- ===== src/Tools/Listing.antt =====
-- The lists of notes of crates/joplin-mcpd/src/mcp/tools.rs: the requests, the queries behind `list_notes`,
-- `get_recent_notes` and `get_notes_by_tag`, and the cut of a page. A cursor stands here as the place that
-- it carries; Tools/Cursor has its text form. A limit is at least 1, since the input is validated.
pub mod Laws
use joplin_mcp_rust.Prelude.{
  ℕ, suc, zero, ◌+◌, Bool, true, false, not, ◌&&◌, ◌||◌, List, [], ◌∷◌, ◌++◌, Option, none, some,
  ◌==◌, if◌then◌else◌, same, text_ltb, take, length, map, map_option, and_then, unwrap_or, is_none,
  any, all, is_empty, chars, String,
}
use joplin_mcp_rust.Prelude.Int.{ℤ, pos, leb_ℤ, pos_part}
use joplin_mcp_rust.Json.{Value, Values, nil, cons, get, as_str, as_array, as_i64, as_bool}
use joplin_mcp_rust.Keyset.{filter, sort}
use joplin_mcp_rust.Keyset.Walk.{cut, walk}
use joplin_mcp_rust.Tools.Truncate.{truncate_text_at_chars}
use joplin_mcp_rust.Indexer.Item.{Str}
use joplin_mcp_rust.Indexer.Tables.{NoteRow, NoteTagRow, Index, edge_is, not_distinct, same_bool}
use joplin_mcp_rust.Indexer.Source.{place_before}

abbrev pub note_preview_chars : ℕ
note_preview_chars = 200

pub record NoteListRequest : Type 0 where
  pub notebook_id : Option Str
  pub tag_ids : List Str
  pub updated_after : Option ℤ
  pub updated_before : Option ℤ
  pub is_todo : Option Bool
  pub limit : ℕ

abbrev texts : Values → List Str
texts nil = []
texts (cons v vs) = elim (as_str v) [ none ↦ texts vs | some s ↦ chars s ∷ texts vs ]

abbrev limit_of : Value → ℕ → ℕ
limit_of input default_limit =
    pos_part (unwrap_or (and_then (get input "limit") as_i64) (pos default_limit))

unfoldable pub from_input : Value → ℕ → NoteListRequest
from_input input default_limit = record {
  notebook_id = map_option chars (and_then (get input "notebook_id") as_str);
  tag_ids = unwrap_or (map_option texts (and_then (get input "tag_ids") as_array)) [];
  updated_after = and_then (get input "updated_after") as_i64;
  updated_before = and_then (get input "updated_before") as_i64;
  is_todo = and_then (get input "is_todo") as_bool;
  limit = limit_of input default_limit;
}

unfoldable pub recent : Value → NoteListRequest
recent input = record {
  notebook_id = none;
  tag_ids = [];
  updated_after = none;
  updated_before = none;
  is_todo = none;
  limit = limit_of input 20;
}

-- A place in the order of a list, the time with NULL as 0.
pub record Place : Type 0 where
  pub updated_time : ℤ
  pub joplin_id : Str

-- `COALESCE(updated_time, 0)`
abbrev pub time_key : NoteRow → ℤ
time_key row = unwrap_or row.updated_time (pos 0)

abbrev pub place_of : NoteRow → Place
place_of row = record { updated_time = time_key row; joplin_id = row.joplin_id }

-- The newest row first. The ids go by the collation of the database, taken to be the bytes' order.
abbrev pub behind_place : Place → NoteRow → Bool
behind_place place row =
    place_before text_ltb (time_key row) row.joplin_id place.updated_time place.joplin_id

abbrev pub newer : NoteRow → NoteRow → Bool
newer a b = behind_place (place_of a) b

-- `$n IS NULL OR test`
abbrev pub unless_null {ℓ} : {A : Type ℓ} → Option A → (A → Bool) → Bool
unless_null none test = true
unless_null (some a) test = test a

-- A comparison with a column that may be NULL, as WHERE takes it.
abbrev pub column {ℓ} : {A : Type ℓ} → Option A → (A → Bool) → Bool
column none test = false
column (some a) test = test a

abbrev pub has_tags : Index → NoteRow → List Str → Bool
has_tags db row tag_ids =
    all (λ tag_id. any (edge_is row.user_id row.joplin_id tag_id) db.note_tags) tag_ids

-- The conditions of the query on a note but the one on the cursor.
abbrev pub listed : Index → ℕ → NoteListRequest → NoteRow → Bool
listed db user request row =
    row.user_id == user
    && is_none row.deleted_time
    && unless_null request.notebook_id
        (λ id. column row.parent_joplin_id (λ parent. same parent id))
    && unless_null request.updated_after (λ time. column row.updated_time (λ t. leb_ℤ time t))
    && unless_null request.updated_before (λ time. column row.updated_time (λ t. leb_ℤ t time))
    && unless_null request.is_todo (λ b. same_bool row.is_todo b)
    && has_tags db row request.tag_ids

-- The WHERE, ORDER BY and LIMIT that the queries share.
unfoldable pub fetch_rows : (NoteRow → Bool) → List NoteRow → ℕ → Option Place → List NoteRow
fetch_rows wanted rows limit after = take limit (
    sort newer
      (filter (λ row. wanted row && unless_null after (λ place. behind_place place row)) rows))

unfoldable pub fetch_note_list_rows : Index → ℕ → NoteListRequest → ℕ → Option Place → List NoteRow
fetch_note_list_rows db user request limit after =
    fetch_rows (listed db user request) db.notes limit after

-- A note has one edge to a tag at most, so the JOIN gives each note once.
abbrev pub tagged : Index → ℕ → Str → NoteRow → Bool
tagged db user tag_id row =
    row.user_id == user
    && any (edge_is user row.joplin_id tag_id) db.note_tags
    && is_none row.deleted_time

unfoldable pub fetch_notes_by_tag_rows : Index → ℕ → Str → ℕ → Option Place → List NoteRow
fetch_notes_by_tag_rows db user tag_id limit after =
    fetch_rows (tagged db user tag_id) db.notes limit after

pub record NoteListItem : Type 0 where
  pub joplin_id : Str
  pub title : Str
  pub notebook_id : Option Str
  pub updated_time : Option ℤ
  pub preview : Str

-- The text from offset 0 is there, so nothing panics.
abbrev preview_of : Str → Str
preview_of body = elim (truncate_text_at_chars body 0 note_preview_chars) [
  | none ↦ []
  | some text ↦ text.value
]

abbrev pub note_list_item : NoteRow → NoteListItem
note_list_item row = record {
  joplin_id = row.joplin_id;
  title = row.title;
  notebook_id = row.parent_joplin_id;
  updated_time = row.updated_time;
  preview = preview_of row.body_text;
}

pub record NoteSummary : Type 0 where
  pub joplin_id : Str
  pub title : Str
  pub notebook_id : Option Str
  pub updated_time : Option ℤ

abbrev pub note_summary : NoteRow → NoteSummary
note_summary row = record {
  joplin_id = row.joplin_id;
  title = row.title;
  notebook_id = row.parent_joplin_id;
  updated_time = row.updated_time;
}

-- The page that `list_notes` and `get_recent_notes` answer, and the place of its cursor.
unfoldable pub list_notes :
    Index → ℕ → NoteListRequest → Option Place → List NoteListItem × Option Place
list_notes db user request after =
    cut note_list_item place_of request.limit
      (fetch_note_list_rows db user request (suc request.limit) after)

unfoldable pub get_notes_by_tag :
    Index → ℕ → Str → ℕ → Option Place → List NoteSummary × Option Place
get_notes_by_tag db user tag_id limit after =
    cut note_summary place_of limit (fetch_notes_by_tag_rows db user tag_id (suc limit) after)
