-- ===== src/Indexer/Rows.antt =====
-- What a batch of items asks of the derived tables: `build_incremental_rows` and `active_row` of
-- crates/joplin-mcpd/src/indexer/refresh.rs, with `IncrementalRows`.
pub mod Laws
use joplin_mcp_rust.Prelude.{
  ℕ, Bool, true, false, not, ◌&&◌, List, [], ◌∷◌, ◌++◌, Option, none, some, if◌then◌else◌, same,
  chars, is_some, unwrap_or, suc, zero, ◌+◌,
}
use joplin_mcp_rust.Prelude.Int.{ℤ, leb_ℤ}
use joplin_mcp_rust.Indexer.Item.{
  Str, JoplinItem, JoplinItemType, note, folder, tag, note_tag, resource, revision, ParsedItem,
  empty_to_none, string_metadata, integer_metadata, bool_metadata, deleted_time, parent_id,
  resource_title,
}
use joplin_mcp_rust.Indexer.Parser.{Engine, extract_resource_refs}
use joplin_mcp_rust.Indexer.Content.{parse_index_item}
use joplin_mcp_rust.Indexer.Tables.{ActiveRow, DeletedRow}

pub record IncrementalRows : Type 0 where
  pub active : List ActiveRow
  pub deleted : List DeletedRow
  pub skipped_encrypted : ℕ
  pub skipped_malformed : ℕ
  pub skipped_wrong_owner : ℕ
  pub last_seen_joplin_updated_time : Option ℤ

abbrev pub default_rows : IncrementalRows
default_rows = record {
  active = [];
  deleted = [];
  skipped_encrypted = 0;
  skipped_malformed = 0;
  skipped_wrong_owner = 0;
  last_seen_joplin_updated_time = none;
}

abbrev pub max_int : ℤ → ℤ → ℤ
max_int a b = if leb_ℤ a b then b else a

abbrev pub latest : Option ℤ → ℤ → ℤ
latest none time = time
latest (some previous) time = max_int previous time

unfoldable pub record_seen : ℤ → IncrementalRows → IncrementalRows
record_seen updated_time rows = record rows {
  last_seen_joplin_updated_time = some (latest rows.last_seen_joplin_updated_time updated_time);
}

-- The row that the arms of `active_row` fill in.
abbrev blank_row : JoplinItem → ParsedItem → ActiveRow
blank_row item parsed = record {
  joplin_item_id = item.id;
  joplin_id = item.jop_id;
  item_type = item.item_type;
  parent_joplin_id = none;
  title = parsed.title;
  body_text = [];
  is_todo = false;
  created_time = item.created_time;
  updated_time = unwrap_or (integer_metadata parsed (chars "updated_time")) item.updated_time;
  resource_refs = [];
  mime = none;
  size_bytes = none;
  file_extension = none;
  note_joplin_id = none;
  tag_joplin_id = none;
}

abbrev pub active_as : JoplinItemType → Engine → JoplinItem → ParsedItem → Option ActiveRow
active_as item_type e item parsed = elim item_type [
  | note ↦ some (record (blank_row item parsed) {
    parent_joplin_id = parent_id item parsed;
    body_text = parsed.body;
    is_todo = bool_metadata parsed (chars "is_todo");
    created_time = unwrap_or (integer_metadata parsed (chars "created_time")) item.created_time;
    resource_refs = extract_resource_refs e parsed.body;
  })
  | folder ↦ some (record (blank_row item parsed) {
    parent_joplin_id = parent_id item parsed;
    created_time = unwrap_or (integer_metadata parsed (chars "created_time")) item.created_time;
  })
  | tag ↦ some (blank_row item parsed)
  | note_tag ↦
      let row : ActiveRow = record (blank_row item parsed) {
        title = [];
        note_joplin_id = string_metadata parsed (chars "note_id");
        tag_joplin_id = string_metadata parsed (chars "tag_id");
      } in
      if is_some row.note_joplin_id && is_some row.tag_joplin_id then some row else none
  | resource ↦ some (record (blank_row item parsed) {
    title = resource_title item parsed;
    mime = empty_to_none item.mime_type;
    size_bytes = integer_metadata parsed (chars "size");
    file_extension = string_metadata parsed (chars "file_extension");
  })
  | revision ↦ none
]

unfoldable pub active_row : Engine → JoplinItem → ParsedItem → Option ActiveRow
active_row e item parsed = active_as item.item_type e item parsed

-- What one item comes to.
pub data Outcome : Type 0 where
  wrong_owner is_encrypted malformed : Outcome
  is_deleted : DeletedRow → Outcome
  is_active : ActiveRow → Outcome

abbrev pub deleted_of : JoplinItem → ParsedItem → ℤ → DeletedRow
deleted_of item parsed time = record {
  joplin_id = item.jop_id;
  item_type = item.item_type;
  updated_time = item.updated_time;
  deleted_time = some time;
  note_joplin_id = string_metadata parsed (chars "note_id");
  tag_joplin_id = string_metadata parsed (chars "tag_id");
}

abbrev pub row_of : Engine → JoplinItem → ParsedItem → Outcome
row_of e item parsed = elim (deleted_time parsed) [
  | some time ↦ is_deleted (deleted_of item parsed time)
  | none ↦ elim (active_row e item parsed) [ some row ↦ is_active row | none ↦ malformed ]
]

abbrev pub read_item : Engine → JoplinItem → Outcome
read_item e item = elim (e.from_utf8 item.content) [
  | none ↦ malformed
  | some raw ↦ elim (parse_index_item e item raw) [
    | none ↦ malformed
    | some parsed ↦ row_of e item parsed
  ]
]

unfoldable pub outcome : Engine → Str → JoplinItem → Outcome
outcome e joplin_user_id item =
    if not (same item.owner_id joplin_user_id)
    then wrong_owner
    else if item.encrypted
    then is_encrypted
    else read_item e item

abbrev pub add_outcome : Outcome → IncrementalRows → IncrementalRows
add_outcome wrong_owner rows = record rows { skipped_wrong_owner = rows.skipped_wrong_owner + 1 }
add_outcome is_encrypted rows = record rows { skipped_encrypted = rows.skipped_encrypted + 1 }
add_outcome malformed rows = record rows { skipped_malformed = rows.skipped_malformed + 1 }
add_outcome (is_deleted row) rows = record rows { deleted = rows.deleted ++ (row ∷ []) }
add_outcome (is_active row) rows = record rows { active = rows.active ++ (row ∷ []) }

abbrev pub build_from : Engine → Str → List JoplinItem → IncrementalRows → IncrementalRows
build_from e joplin_user_id [] rows = rows
build_from e joplin_user_id (item ∷ items) rows =
    build_from e joplin_user_id items
      (add_outcome (outcome e joplin_user_id item) (record_seen item.updated_time rows))

unfoldable pub build_incremental_rows : Engine → Str → List JoplinItem → IncrementalRows
build_incremental_rows e joplin_user_id items = build_from e joplin_user_id items default_rows
