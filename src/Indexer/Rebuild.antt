-- ===== src/Indexer/Rebuild.antt =====
-- The full rebuild of crates/joplin-mcpd/src/indexer/rebuild.rs: the rows of a batch, their insertion, and
-- the loop over the batches between the deletion of the user's rows and the pruning of edges. An INSERT of
-- a key that is there fails, and with it the transaction: none.
pub mod ByType
pub mod Agrees
pub mod Insert
pub mod Stream
pub mod User
use joplin_mcp_rust.Prelude.{
  ℕ, suc, zero, ◌+◌, Bool, true, false, not, ◌&&◌, List, [], ◌∷◌, ◌++◌, Option, none, some, ◌==◌,
  if◌then◌else◌, same, chars, any, length, unwrap_or, map, and_then, Result, ok, err,
}
use joplin_mcp_rust.Prelude.Int.{ℤ}
use joplin_mcp_rust.Time.{DateTime}
use joplin_mcp_rust.Indexer.State.{greatest}
use joplin_mcp_rust.Indexer.Item.{
  Str, JoplinItem, JoplinItemType, note, folder, tag, note_tag, resource, revision, as_i32,
  ParsedItem, empty_to_none, string_metadata, integer_metadata, bool_metadata, deleted_time,
  parent_id, resource_title,
}
use joplin_mcp_rust.Indexer.Parser.{Engine, extract_resource_refs}
use joplin_mcp_rust.Indexer.Content.{parse_index_item}
use joplin_mcp_rust.Indexer.Rows.{latest}
use joplin_mcp_rust.Indexer.Tables.{
  Index, delete_where, note_is, notebook_is, tag_is, resource_is, edge_is, deleted_item_is,
}
use joplin_mcp_rust.Indexer.Tables as T

pub record NoteRow : Type 0 where
  pub joplin_item_id : Str
  pub joplin_id : Str
  pub parent_joplin_id : Option Str
  pub title : Str
  pub body_text : Str
  pub is_todo : Bool
  pub created_time : ℤ
  pub updated_time : ℤ
  pub resource_refs : List Str

pub record NotebookRow : Type 0 where
  pub joplin_item_id : Str
  pub joplin_id : Str
  pub parent_joplin_id : Option Str
  pub title : Str
  pub created_time : ℤ
  pub updated_time : ℤ

pub record TagRow : Type 0 where
  pub joplin_item_id : Str
  pub joplin_id : Str
  pub title : Str
  pub updated_time : ℤ

pub record NoteTagRow : Type 0 where
  pub note_joplin_id : Str
  pub tag_joplin_id : Str
  pub updated_time : ℤ

pub record ResourceRow : Type 0 where
  pub joplin_item_id : Str
  pub joplin_id : Str
  pub title : Str
  pub mime : Option Str
  pub size_bytes : Option ℤ
  pub file_extension : Option Str
  pub updated_time : ℤ

pub record DeletedItemRow : Type 0 where
  pub joplin_id : Str
  pub item_type : ℕ
  pub deleted_time : Option ℤ

pub record RebuildRows : Type 0 where
  pub notes : List NoteRow
  pub notebooks : List NotebookRow
  pub tags : List TagRow
  pub note_tags : List NoteTagRow
  pub resources : List ResourceRow
  pub deleted_items : List DeletedItemRow
  pub skipped_encrypted : ℕ
  pub skipped_malformed : ℕ
  pub skipped_wrong_owner : ℕ
  pub last_seen_joplin_updated_time : Option ℤ

abbrev pub no_rows : RebuildRows
no_rows = record {
  notes = [];
  notebooks = [];
  tags = [];
  note_tags = [];
  resources = [];
  deleted_items = [];
  skipped_encrypted = 0;
  skipped_malformed = 0;
  skipped_wrong_owner = 0;
  last_seen_joplin_updated_time = none;
}

unfoldable pub record_seen : ℤ → RebuildRows → RebuildRows
record_seen updated_time rows = record rows {
  last_seen_joplin_updated_time = some (latest rows.last_seen_joplin_updated_time updated_time);
}

unfoldable pub note_tag_row : ParsedItem → ℤ → Option NoteTagRow
note_tag_row parsed updated_time = and_then (string_metadata parsed (chars "note_id")) (λ note_id.
    and_then (string_metadata parsed (chars "tag_id")) (λ tag_id. some (record {
      note_joplin_id = note_id;
      tag_joplin_id = tag_id;
      updated_time = unwrap_or (integer_metadata parsed (chars "updated_time")) updated_time;
    })))

abbrev time_of : ParsedItem → ℤ → Str → ℤ
time_of parsed column key = unwrap_or (integer_metadata parsed key) column

abbrev pub append_edge : Option NoteTagRow → RebuildRows → RebuildRows
append_edge (some row) rows = record rows { note_tags = rows.note_tags ++ (row ∷ []) }
append_edge none rows = record rows { skipped_malformed = rows.skipped_malformed + 1 }

-- The match on the type of an item that is not deleted.
abbrev pub append_as : JoplinItemType → Engine → JoplinItem → ParsedItem → RebuildRows → RebuildRows
append_as item_type e item parsed rows = elim item_type [
  | note ↦
      let row : NoteRow = record {
        joplin_item_id = item.id;
        joplin_id = item.jop_id;
        parent_joplin_id = parent_id item parsed;
        title = parsed.title;
        body_text = parsed.body;
        is_todo = bool_metadata parsed (chars "is_todo");
        created_time = time_of parsed item.created_time (chars "created_time");
        updated_time = time_of parsed item.updated_time (chars "updated_time");
        resource_refs = extract_resource_refs e parsed.body;
      } in
      record rows { notes = rows.notes ++ (row ∷ []) }
  | folder ↦
      let row : NotebookRow = record {
        joplin_item_id = item.id;
        joplin_id = item.jop_id;
        parent_joplin_id = parent_id item parsed;
        title = parsed.title;
        created_time = time_of parsed item.created_time (chars "created_time");
        updated_time = time_of parsed item.updated_time (chars "updated_time");
      } in
      record rows { notebooks = rows.notebooks ++ (row ∷ []) }
  | tag ↦
      let row : TagRow = record {
        joplin_item_id = item.id;
        joplin_id = item.jop_id;
        title = parsed.title;
        updated_time = time_of parsed item.updated_time (chars "updated_time");
      } in
      record rows { tags = rows.tags ++ (row ∷ []) }
  | note_tag ↦ append_edge (note_tag_row parsed item.updated_time) rows
  | resource ↦
      let row : ResourceRow = record {
        joplin_item_id = item.id;
        joplin_id = item.jop_id;
        title = resource_title item parsed;
        mime = empty_to_none item.mime_type;
        size_bytes = integer_metadata parsed (chars "size");
        file_extension = string_metadata parsed (chars "file_extension");
        updated_time = time_of parsed item.updated_time (chars "updated_time");
      } in
      record rows { resources = rows.resources ++ (row ∷ []) }
  | revision ↦ record rows { skipped_malformed = rows.skipped_malformed + 1 }
]

abbrev deleted_of : JoplinItem → ℤ → DeletedItemRow
deleted_of item time = record {
  joplin_id = item.jop_id;
  item_type = as_i32 item.item_type;
  deleted_time = some time;
}

abbrev pub append_parsed : Engine → JoplinItem → ParsedItem → RebuildRows → RebuildRows
append_parsed e item parsed rows = elim (deleted_time parsed) [
  | some time ↦ record rows { deleted_items = rows.deleted_items ++ (deleted_of item time ∷ []) }
  | none ↦ append_as item.item_type e item parsed rows
]

abbrev pub append_read : Engine → JoplinItem → RebuildRows → RebuildRows
append_read e item rows = elim (e.from_utf8 item.content) [
  | none ↦ record rows { skipped_malformed = rows.skipped_malformed + 1 }
  | some raw ↦ elim (parse_index_item e item raw) [
    | none ↦ record rows { skipped_malformed = rows.skipped_malformed + 1 }
    | some parsed ↦ append_parsed e item parsed rows
  ]
]

abbrev pub append_item : Engine → Str → JoplinItem → RebuildRows → RebuildRows
append_item e joplin_user_id item rows =
    if not (same item.owner_id joplin_user_id)
    then record rows { skipped_wrong_owner = rows.skipped_wrong_owner + 1 }
    else if item.encrypted
    then record rows { skipped_encrypted = rows.skipped_encrypted + 1 }
    else append_read e item rows

unfoldable pub append_rebuild_rows : Engine → Str → List JoplinItem → RebuildRows → RebuildRows
append_rebuild_rows e joplin_user_id [] rows = rows
append_rebuild_rows e joplin_user_id (item ∷ items) rows =
    append_rebuild_rows e joplin_user_id items
      (append_item e joplin_user_id item (record_seen item.updated_time rows))

unfoldable pub rebuild_rows_for_items : Engine → Str → List JoplinItem → RebuildRows
rebuild_rows_for_items e joplin_user_id items = append_rebuild_rows e joplin_user_id items no_rows
