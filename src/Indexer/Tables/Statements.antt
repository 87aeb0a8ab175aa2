-- ===== src/Indexer/Tables/Statements.antt =====
-- The statements of crates/joplin-mcpd/src/indexer/refresh.rs on the derived rows: the upserts, the
-- purges, the tests whether a row is current, and the reconciliation of hard deletes.
use joplin_mcp_rust.Prelude.{
  ℕ, Bool, true, false, ◌&&◌, List, Option, none, some, ◌==◌, same, any, is_none, or_else,
}
use joplin_mcp_rust.Prelude.Int.{ℤ, eq_ℤ}
use joplin_mcp_rust.Time.{DateTime}
use joplin_mcp_rust.Indexer.Item.{
  Str, JoplinItemType, note, folder, tag, note_tag, resource, revision, as_i32,
}
use joplin_mcp_rust.Indexer.Tables.{
  ActiveRow, DeletedRow, NoteRow, NotebookRow, TagRow, NoteTagRow, ResourceRow, DeletedItemRow,
  Index, delete_where, upsert, note_is, notebook_is, tag_is, resource_is, deleted_item_is, edge_is,
  edge_of_note, edge_of_tag, not_distinct, same_texts, same_bool,
}

-- The row that a statement's VALUES give; the column that it does not name is NULL.
abbrev pub note_row : ℕ → DateTime → ActiveRow → NoteRow
note_row user now row = record {
  user_id = user;
  joplin_item_id = row.joplin_item_id;
  joplin_id = row.joplin_id;
  parent_joplin_id = row.parent_joplin_id;
  title = row.title;
  body_text = row.body_text;
  is_todo = row.is_todo;
  created_time = some row.created_time;
  updated_time = some row.updated_time;
  deleted_time = none;
  resource_refs = row.resource_refs;
  indexed_at = now;
}

abbrev pub notebook_row : ℕ → DateTime → ActiveRow → NotebookRow
notebook_row user now row = record {
  user_id = user;
  joplin_item_id = row.joplin_item_id;
  joplin_id = row.joplin_id;
  parent_joplin_id = row.parent_joplin_id;
  title = row.title;
  created_time = some row.created_time;
  updated_time = some row.updated_time;
  deleted_time = none;
  indexed_at = now;
}

abbrev pub tag_row : ℕ → DateTime → ActiveRow → TagRow
tag_row user now row = record {
  user_id = user;
  joplin_item_id = row.joplin_item_id;
  joplin_id = row.joplin_id;
  title = row.title;
  updated_time = some row.updated_time;
  indexed_at = now;
}

abbrev pub resource_row : ℕ → DateTime → ActiveRow → ResourceRow
resource_row user now row = record {
  user_id = user;
  joplin_item_id = row.joplin_item_id;
  joplin_id = row.joplin_id;
  title = row.title;
  mime = row.mime;
  size_bytes = row.size_bytes;
  file_extension = row.file_extension;
  updated_time = some row.updated_time;
  indexed_at = now;
}

abbrev pub edge_row : ℕ → DateTime → Str → Str → ActiveRow → NoteTagRow
edge_row user now note_id tag_id row = record {
  user_id = user;
  note_joplin_id = note_id;
  tag_joplin_id = tag_id;
  updated_time = some row.updated_time;
  indexed_at = now;
}

abbrev pub upsert_edge :
    ℕ → DateTime → Option Str → Option Str → ActiveRow → List NoteTagRow → List NoteTagRow
upsert_edge user now (some note_id) (some tag_id) row rs =
    let edge = edge_row user now note_id tag_id row in
    upsert (edge_is user note_id tag_id) edge (λ old. edge) rs
upsert_edge user now _ _ row rs = rs

-- The ids of a note tag are there, since `active_row` lets no other row through; without them the
-- code panics, and here nothing is written.
abbrev pub upsert_as : JoplinItemType → ℕ → DateTime → ActiveRow → Index → Index
upsert_as item_type user now row db = elim item_type [
  | note ↦
      let new = note_row user now row in
      record db { notes = upsert (note_is user row.joplin_id) new (λ old. new) db.notes }
  | folder ↦
      let new = notebook_row user now row in
      record db {
        notebooks = upsert (notebook_is user row.joplin_id) new (λ old. new) db.notebooks;
      }
  | tag ↦
      let new = tag_row user now row in
      record db { tags = upsert (tag_is user row.joplin_id) new (λ old. new) db.tags }
  | note_tag ↦ record db {
    note_tags = upsert_edge user now row.note_joplin_id row.tag_joplin_id row db.note_tags;
  }
  | resource ↦
      let new = resource_row user now row in
      record db {
        resources = upsert (resource_is user row.joplin_id) new (λ old. new) db.resources;
      }
  | revision ↦ db
]

unfoldable pub upsert_active_row : ℕ → DateTime → ActiveRow → Index → Index
upsert_active_row user now row db = upsert_as row.item_type user now row db

unfoldable pub purge_active_item : ℕ → Str → JoplinItemType → Index → Index
purge_active_item user joplin_id item_type db = elim item_type [
  | note ↦ record db {
    note_tags = delete_where (edge_of_note user joplin_id) db.note_tags;
    notes = delete_where (note_is user joplin_id) db.notes;
  }
  | folder ↦ record db { notebooks = delete_where (notebook_is user joplin_id) db.notebooks }
  | tag ↦ record db {
    note_tags = delete_where (edge_of_tag user joplin_id) db.note_tags;
    tags = delete_where (tag_is user joplin_id) db.tags;
  }
  | note_tag ↦ db
  | resource ↦ record db { resources = delete_where (resource_is user joplin_id) db.resources }
  | revision ↦ db
]

abbrev purge_edge : ℕ → JoplinItemType → Option Str → Option Str → List NoteTagRow → List NoteTagRow
purge_edge user note_tag (some note_id) (some tag_id) rs =
    delete_where (edge_is user note_id tag_id) rs
purge_edge user _ _ _ rs = rs

unfoldable pub purge_active_row : ℕ → DeletedRow → Index → Index
purge_active_row user row db =
    let purged = purge_active_item user row.joplin_id row.item_type db in
    record purged {
      note_tags =
          purge_edge user row.item_type row.note_joplin_id row.tag_joplin_id purged.note_tags;
    }

unfoldable pub upsert_deleted_row : ℕ → DateTime → DeletedRow → Str → Index → Index
upsert_deleted_row user now row source db =
    let new : DeletedItemRow = record {
      user_id = user;
      joplin_id = row.joplin_id;
      item_type = as_i32 row.item_type;
      source = source;
      deleted_time = row.deleted_time;
      tombstoned_at = now;
    } in
    record db {
      deleted_items =
          upsert (deleted_item_is user row.joplin_id) new
            (λ old. record new { deleted_time = or_else row.deleted_time old.deleted_time })
            db.deleted_items;
    }

abbrev edge_is_current : ℕ → Option Str → Option Str → ℤ → List NoteTagRow → Bool
edge_is_current user (some note_id) (some tag_id) updated_time rs =
    any (λ r. edge_is user note_id tag_id r && not_distinct eq_ℤ r.updated_time (some updated_time))
      rs
edge_is_current user _ _ updated_time rs = false

-- The columns that the queries of `active_row_is_current` compare.
abbrev pub note_agrees : ActiveRow → NoteRow → Bool
note_agrees row r =
    same r.joplin_item_id row.joplin_item_id
    && not_distinct same r.parent_joplin_id row.parent_joplin_id
    && same r.title row.title
    && same r.body_text row.body_text
    && same_bool r.is_todo row.is_todo
    && not_distinct eq_ℤ r.created_time (some row.created_time)
    && not_distinct eq_ℤ r.updated_time (some row.updated_time)
    && is_none r.deleted_time
    && same_texts r.resource_refs row.resource_refs

abbrev pub notebook_agrees : ActiveRow → NotebookRow → Bool
notebook_agrees row r =
    same r.joplin_item_id row.joplin_item_id
    && not_distinct same r.parent_joplin_id row.parent_joplin_id
    && same r.title row.title
    && not_distinct eq_ℤ r.created_time (some row.created_time)
    && not_distinct eq_ℤ r.updated_time (some row.updated_time)
    && is_none r.deleted_time

abbrev pub tag_agrees : ActiveRow → TagRow → Bool
tag_agrees row r =
    same r.joplin_item_id row.joplin_item_id
    && same r.title row.title
    && not_distinct eq_ℤ r.updated_time (some row.updated_time)

abbrev pub resource_agrees : ActiveRow → ResourceRow → Bool
resource_agrees row r =
    same r.joplin_item_id row.joplin_item_id
    && same r.title row.title
    && not_distinct same r.mime row.mime
    && not_distinct eq_ℤ r.size_bytes row.size_bytes
    && not_distinct same r.file_extension row.file_extension
    && not_distinct eq_ℤ r.updated_time (some row.updated_time)

abbrev pub current_as : JoplinItemType → ℕ → ActiveRow → Index → Bool
current_as item_type user row db = elim item_type [
  | note ↦ any (λ r. note_is user row.joplin_id r && note_agrees row r) db.notes
  | folder ↦ any (λ r. notebook_is user row.joplin_id r && notebook_agrees row r) db.notebooks
  | tag ↦ any (λ r. tag_is user row.joplin_id r && tag_agrees row r) db.tags
  | note_tag ↦
      edge_is_current user row.note_joplin_id row.tag_joplin_id row.updated_time db.note_tags
  | resource ↦ any (λ r. resource_is user row.joplin_id r && resource_agrees row r) db.resources
  | revision ↦ true
]

unfoldable pub active_row_is_current : ℕ → ActiveRow → Index → Bool
active_row_is_current user row db = current_as row.item_type user row db

unfoldable pub deleted_row_is_current : ℕ → DeletedRow → Str → Index → Bool
deleted_row_is_current user row source db =
    any
      (λ r.
        deleted_item_is user row.joplin_id r
        && r.item_type == as_i32 row.item_type
        && same r.source source
        && not_distinct eq_ℤ r.deleted_time row.deleted_time)
      db.deleted_items
