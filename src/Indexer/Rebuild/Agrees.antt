-- ===== src/Indexer/Rebuild/Agrees.antt =====
-- The rows of a rebuild are those of an incremental refresh, sorted by the type of their item.
use joplin_mcp_rust.Prelude.{
  ◌+◌, ◌≡◌, refl, ◌∙◌, ap, Bool, true, false, not, List, [], ◌∷◌, none, some, same, Option-cases,
  inl, inr, if◌then◌else◌, unwrap_or, chars,
}
use joplin_mcp_rust.Keyset.{filter}
use joplin_mcp_rust.Indexer.Item.{
  Str, JoplinItem, JoplinItemType, note, folder, tag, note_tag, resource, revision, ParsedItem,
  deleted_time, string_metadata, integer_metadata,
}
use joplin_mcp_rust.Indexer.Parser.{Engine}
use joplin_mcp_rust.Indexer.Content.{parse_index_item}
use joplin_mcp_rust.Indexer.Rows.{
  IncrementalRows, default_rows, active_as, active_row, Outcome, wrong_owner, is_encrypted,
  malformed, is_deleted, is_active, row_of, read_item, deleted_of, outcome, add_outcome, build_from,
  build_incremental_rows,
}
use joplin_mcp_rust.Indexer.Rows as Rows
use joplin_mcp_rust.Indexer.Rebuild.{
  NoteTagRow, RebuildRows, record_seen, note_tag_row, append_as, append_parsed, append_read,
  append_item, append_rebuild_rows, rebuild_rows_for_items,
}
use joplin_mcp_rust.Indexer.Rebuild.ByType.{
  by_type, push_note, push_folder, push_tag, push_note_tag, push_resource, push_deleted,
}

agrees_as :
    (t : JoplinItemType) (e : Engine) (item : JoplinItem) (parsed : ParsedItem)
    (rows : IncrementalRows)
    → t ≡ item.item_type
    → append_as t e item parsed (by_type rows)
      ≡ by_type (
          add_outcome
            (elim (active_as t e item parsed) [ some row ↦ is_active row | none ↦ malformed ])
            rows)
unfolding note_tag_row
agrees_as note e item parsed rows is_type = push_note _ rows is_type
agrees_as folder e item parsed rows is_type = push_folder _ rows is_type
agrees_as tag e item parsed rows is_type = push_tag _ rows is_type
agrees_as note_tag e item parsed rows is_type =
    elim (Option-cases (string_metadata parsed (chars "note_id"))) [
      | inl no_note ↦
          let refused : note_tag_row parsed item.updated_time ≡ none =
            rw (note_tag_row, no_note) refl in
          rw (refused, no_note) refl
      | inr (note_id, has_note) ↦ elim (Option-cases (string_metadata parsed (chars "tag_id"))) [
        | inl no_tag ↦
            let refused : note_tag_row parsed item.updated_time ≡ none =
              rw (note_tag_row, has_note, no_tag) refl in
            rw (refused, has_note, no_tag) refl
        | inr (tag_id, has_tag) ↦
            let edge : NoteTagRow = record {
              note_joplin_id = note_id;
              tag_joplin_id = tag_id;
              updated_time =
                  unwrap_or (integer_metadata parsed (chars "updated_time")) item.updated_time;
            } in
            let accepted : note_tag_row parsed item.updated_time ≡ some edge =
              rw (note_tag_row, has_note, has_tag) refl in
            rw (accepted, has_note, has_tag) (push_note_tag _ rows is_type)
      ]
    ]
agrees_as resource e item parsed rows is_type = push_resource _ rows is_type
agrees_as revision e item parsed rows is_type = refl

agrees_parsed :
    (e : Engine) (item : JoplinItem) (parsed : ParsedItem) (rows : IncrementalRows)
    → append_parsed e item parsed (by_type rows) ≡ by_type (add_outcome (row_of e item parsed) rows)
unfolding active_row
agrees_parsed e item parsed rows = elim (Option-cases (deleted_time parsed)) [
  | inl alive ↦ rw (append_parsed, row_of, alive) (agrees_as item.item_type e item parsed rows refl)
  | inr (time, deleted) ↦
      rw (append_parsed, row_of, deleted) (push_deleted (deleted_of item parsed time) rows)
]

agrees_read :
    (e : Engine) (item : JoplinItem) (rows : IncrementalRows)
    → append_read e item (by_type rows) ≡ by_type (add_outcome (read_item e item) rows)
agrees_read e item rows = elim (Option-cases (e.from_utf8 item.content)) [
  | inl garbled ↦ rw (append_read, read_item, garbled) refl
  | inr (raw, is_text) ↦ elim (Option-cases (parse_index_item e item raw)) [
    | inl refused ↦ rw (append_read, read_item, is_text, refused) refl
    | inr (parsed, reads) ↦
        rw (append_read, read_item, is_text, reads) (agrees_parsed e item parsed rows)
  ]
]

agrees_guards :
    (own locked : Bool) (read : RebuildRows) (o : Outcome) (rows : IncrementalRows)
    → read ≡ by_type (add_outcome o rows)
    → (if not own
        then record (by_type rows) { skipped_wrong_owner = rows.skipped_wrong_owner + 1 }
        else if locked
        then record (by_type rows) { skipped_encrypted = rows.skipped_encrypted + 1 }
        else read)
      ≡ by_type
          (add_outcome (if not own then wrong_owner else if locked then is_encrypted else o) rows)
agrees_guards false locked read o rows h = refl
agrees_guards true true read o rows h = refl
agrees_guards true false read o rows h = h

agrees_item :
    (e : Engine) (user : Str) (item : JoplinItem) (rows : IncrementalRows)
    → append_item e user item (by_type rows) ≡ by_type (add_outcome (outcome e user item) rows)
unfolding outcome
agrees_item e user item rows =
    agrees_guards (same item.owner_id user) item.encrypted (append_read e item (by_type rows))
      (read_item e item) rows (agrees_read e item rows)

agrees_from :
    (e : Engine) (user : Str) (items : List JoplinItem) (rows : IncrementalRows)
    → append_rebuild_rows e user items (by_type rows) ≡ by_type (build_from e user items rows)
unfolding append_rebuild_rows record_seen Rows.record_seen
agrees_from e user [] rows = refl
agrees_from e user (item ∷ items) rows =
    let seen = Rows.record_seen item.updated_time rows in
    ap (append_rebuild_rows e user items) (agrees_item e user item seen)
    ∙ agrees_from e user items (add_outcome (outcome e user item) seen)

-- From the same items a rebuild and an incremental refresh make the same rows: the rebuild's notes,
-- notebooks, tags, edges, resources and tombstones are the incremental rows of their type, in order, and
-- the counters and the last seen time are equal.
pub rebuild_rows_for_items_same :
    (e : Engine) (user : Str) (items : List JoplinItem)
    → rebuild_rows_for_items e user items ≡ by_type (build_incremental_rows e user items)
unfolding rebuild_rows_for_items build_incremental_rows filter
rebuild_rows_for_items_same e user items = agrees_from e user items default_rows
