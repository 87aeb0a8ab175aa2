-- ===== src/Indexer/Tables/Shelf.antt =====
-- What the derived tables hold of an item: its row under the user, the type and the id, with the times
-- of indexing forgotten. The statements of refresh.rs are writes to this map.
use joplin_mcp_rust.Prelude.{
  ℕ, Bool, ◌&&◌, List, Option, none, some, ◌==◌, if◌then◌else◌, same, map_option,
}
use joplin_mcp_rust.Prelude.Int.{ℤ}
use joplin_mcp_rust.Indexer.Item.{
  Str, JoplinItemType, note, folder, tag, note_tag, resource, revision, same_type,
}
use joplin_mcp_rust.Indexer.Tables.{
  ActiveRow, NoteRow, NotebookRow, TagRow, ResourceRow, Index, find, note_is, notebook_is, tag_is,
  resource_is,
}

-- A row's columns but its key and the time of indexing.
pub data Stored : Type 0 where
  stored_note :
      Str → Option Str → Str → Str → Bool → Option ℤ → Option ℤ → Option ℤ → List Str → Stored
  stored_notebook : Str → Option Str → Str → Option ℤ → Option ℤ → Option ℤ → Stored
  stored_tag : Str → Str → Option ℤ → Stored
  stored_resource : Str → Str → Option Str → Option ℤ → Option Str → Option ℤ → Stored

abbrev pub of_note : NoteRow → Stored
of_note r =
    stored_note r.joplin_item_id r.parent_joplin_id r.title r.body_text r.is_todo r.created_time
      r.updated_time r.deleted_time r.resource_refs

abbrev pub of_notebook : NotebookRow → Stored
of_notebook r =
    stored_notebook r.joplin_item_id r.parent_joplin_id r.title r.created_time r.updated_time
      r.deleted_time

abbrev pub of_tag : TagRow → Stored
of_tag r = stored_tag r.joplin_item_id r.title r.updated_time

abbrev pub of_resource : ResourceRow → Stored
of_resource r =
    stored_resource r.joplin_item_id r.title r.mime r.size_bytes r.file_extension r.updated_time

abbrev pub Shelf : Type 0
Shelf = ℕ → JoplinItemType → Str → Option Stored

-- The abstract view: no note tags, which have no row of their own id, and no revisions.
unfoldable pub shelf : Index → Shelf
shelf db user item_type id = elim item_type [
  | note ↦ map_option of_note (find (note_is user id) db.notes)
  | folder ↦ map_option of_notebook (find (notebook_is user id) db.notebooks)
  | tag ↦ map_option of_tag (find (tag_is user id) db.tags)
  | note_tag ↦ none
  | resource ↦ map_option of_resource (find (resource_is user id) db.resources)
  | revision ↦ none
]

-- What an active row asks to be stored.
abbrev pub asked : JoplinItemType → ActiveRow → Option Stored
asked item_type row = elim item_type [
  | note ↦ some (
      stored_note row.joplin_item_id row.parent_joplin_id row.title row.body_text row.is_todo
        (some row.created_time) (some row.updated_time) none row.resource_refs)
  | folder ↦ some (
      stored_notebook row.joplin_item_id row.parent_joplin_id row.title (some row.created_time)
        (some row.updated_time) none)
  | tag ↦ some (stored_tag row.joplin_item_id row.title (some row.updated_time))
  | note_tag ↦ none
  | resource ↦ some (
      stored_resource row.joplin_item_id row.title row.mime row.size_bytes row.file_extension
        (some row.updated_time))
  | revision ↦ none
]

-- The abstract map with one entry set.
abbrev pub put : ℕ → JoplinItemType → Str → Option Stored → Shelf → Shelf
put user item_type id entry s =
    λ u t i. if same_type item_type t && (user == u && same id i) then entry else s u t i
