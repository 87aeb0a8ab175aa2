-- ===== src/Indexer/Rebuild/ByType.antt =====
-- The rows of an incremental refresh, sorted by type into those of a rebuild.
use joplin_mcp_rust.Prelude.{
  ◌≡◌, refl, sym, ◌∙◌, ap, true, false, List, [], ◌∷◌, ◌++◌, map, map-append, unwrap_or,
}
use joplin_mcp_rust.Keyset.{filter, filter-append}
use joplin_mcp_rust.Keyset.Laws.{append_nil}
use joplin_mcp_rust.Indexer.Item.{
  JoplinItemType, note, folder, tag, note_tag, resource, as_i32, same_type,
}
use joplin_mcp_rust.Indexer.Tables.{ActiveRow, DeletedRow}
use joplin_mcp_rust.Indexer.Rows.{IncrementalRows}
use joplin_mcp_rust.Indexer.Rebuild.{
  NoteRow, NotebookRow, TagRow, NoteTagRow, ResourceRow, DeletedItemRow, RebuildRows,
}

-- The row of a rebuild that an active row comes to.
abbrev pub rebuilt_note : ActiveRow → NoteRow
rebuilt_note row = record {
  joplin_item_id = row.joplin_item_id;
  joplin_id = row.joplin_id;
  parent_joplin_id = row.parent_joplin_id;
  title = row.title;
  body_text = row.body_text;
  is_todo = row.is_todo;
  created_time = row.created_time;
  updated_time = row.updated_time;
  resource_refs = row.resource_refs;
}

abbrev pub rebuilt_notebook : ActiveRow → NotebookRow
rebuilt_notebook row = record {
  joplin_item_id = row.joplin_item_id;
  joplin_id = row.joplin_id;
  parent_joplin_id = row.parent_joplin_id;
  title = row.title;
  created_time = row.created_time;
  updated_time = row.updated_time;
}

abbrev pub rebuilt_tag : ActiveRow → TagRow
rebuilt_tag row = record {
  joplin_item_id = row.joplin_item_id;
  joplin_id = row.joplin_id;
  title = row.title;
  updated_time = row.updated_time;
}

abbrev pub rebuilt_edge : ActiveRow → NoteTagRow
rebuilt_edge row = record {
  note_joplin_id = unwrap_or row.note_joplin_id [];
  tag_joplin_id = unwrap_or row.tag_joplin_id [];
  updated_time = row.updated_time;
}

abbrev pub rebuilt_resource : ActiveRow → ResourceRow
rebuilt_resource row = record {
  joplin_item_id = row.joplin_item_id;
  joplin_id = row.joplin_id;
  title = row.title;
  mime = row.mime;
  size_bytes = row.size_bytes;
  file_extension = row.file_extension;
  updated_time = row.updated_time;
}

abbrev pub rebuilt_deleted : DeletedRow → DeletedItemRow
rebuilt_deleted row = record {
  joplin_id = row.joplin_id;
  item_type = as_i32 row.item_type;
  deleted_time = row.deleted_time;
}

-- The rows of a type, as a rebuild has them.
abbrev pub of_type : {R : Type 0} → JoplinItemType → (ActiveRow → R) → List ActiveRow → List R
of_type t f rows = map f (filter (λ row. same_type row.item_type t) rows)

-- The specification: an incremental refresh's rows, sorted by their type.
abbrev pub by_type : IncrementalRows → RebuildRows
by_type rows = record {
  notes = of_type note rebuilt_note rows.active;
  notebooks = of_type folder rebuilt_notebook rows.active;
  tags = of_type tag rebuilt_tag rows.active;
  note_tags = of_type note_tag rebuilt_edge rows.active;
  resources = of_type resource rebuilt_resource rows.active;
  deleted_items = map rebuilt_deleted rows.deleted;
  skipped_encrypted = rows.skipped_encrypted;
  skipped_malformed = rows.skipped_malformed;
  skipped_wrong_owner = rows.skipped_wrong_owner;
  last_seen_joplin_updated_time = rows.last_seen_joplin_updated_time;
}

-- A row appended is appended where its type belongs.
of_type-append :
    {R : Type 0} (t : JoplinItemType) (f : ActiveRow → R) (rows more : List ActiveRow)
    → of_type t f (rows ++ more) ≡ of_type t f rows ++ of_type t f more
of_type-append t f rows more =
    ap (map f) (filter-append (λ row. same_type row.item_type t) rows more)
    ∙ map-append f (filter (λ row. same_type row.item_type t) rows)
        (filter (λ row. same_type row.item_type t) more)

own_type :
    {R : Type 0} (t : JoplinItemType) (f : ActiveRow → R) (rows : List ActiveRow) (row : ActiveRow)
    → same_type row.item_type t ≡ true
    → of_type t f (rows ++ (row ∷ [])) ≡ of_type t f rows ++ (f row ∷ [])
unfolding filter
own_type t f rows row h =
    let kept : filter (λ r. same_type r.item_type t) (row ∷ []) ≡ row ∷ [] = rw (filter, h) refl in
    of_type-append t f rows (row ∷ []) ∙ ap (λ l. of_type t f rows ++ map f l) kept

other_type :
    {R : Type 0} (t : JoplinItemType) (f : ActiveRow → R) (rows : List ActiveRow) (row : ActiveRow)
    → same_type row.item_type t ≡ false
    → of_type t f (rows ++ (row ∷ [])) ≡ of_type t f rows
unfolding filter
other_type t f rows row h =
    let dropped : filter (λ r. same_type r.item_type t) (row ∷ []) ≡ [] = rw (filter, h) refl in
    of_type-append t f rows (row ∷ [])
    ∙ ap (λ l. of_type t f rows ++ map f l) dropped
    ∙ append_nil (of_type t f rows)

pub push_note :
    (row : ActiveRow) (rows : IncrementalRows)
    → note ≡ row.item_type
    → record (by_type rows) { notes = (by_type rows).notes ++ (rebuilt_note row ∷ []) }
      ≡ by_type (record rows { active = rows.active ++ (row ∷ []) })
push_note row rows is_type =
    rw
      (
        own_type note rebuilt_note rows.active row (ap (λ t. same_type t note) (sym is_type)),
        other_type folder rebuilt_notebook rows.active row
            (ap (λ t. same_type t folder) (sym is_type)),
        other_type tag rebuilt_tag rows.active row (ap (λ t. same_type t tag) (sym is_type)),
        other_type note_tag rebuilt_edge rows.active row
            (ap (λ t. same_type t note_tag) (sym is_type)),
        other_type resource rebuilt_resource rows.active row
            (ap (λ t. same_type t resource) (sym is_type)),
      )
      refl

pub push_folder :
    (row : ActiveRow) (rows : IncrementalRows)
    → folder ≡ row.item_type
    → record (by_type rows) { notebooks = (by_type rows).notebooks ++ (rebuilt_notebook row ∷ []) }
      ≡ by_type (record rows { active = rows.active ++ (row ∷ []) })
push_folder row rows is_type =
    rw
      (
        other_type note rebuilt_note rows.active row (ap (λ t. same_type t note) (sym is_type)),
        own_type folder rebuilt_notebook rows.active row
            (ap (λ t. same_type t folder) (sym is_type)),
        other_type tag rebuilt_tag rows.active row (ap (λ t. same_type t tag) (sym is_type)),
        other_type note_tag rebuilt_edge rows.active row
            (ap (λ t. same_type t note_tag) (sym is_type)),
        other_type resource rebuilt_resource rows.active row
            (ap (λ t. same_type t resource) (sym is_type)),
      )
      refl

pub push_tag :
    (row : ActiveRow) (rows : IncrementalRows)
    → tag ≡ row.item_type
    → record (by_type rows) { tags = (by_type rows).tags ++ (rebuilt_tag row ∷ []) }
      ≡ by_type (record rows { active = rows.active ++ (row ∷ []) })
push_tag row rows is_type =
    rw
      (
        other_type note rebuilt_note rows.active row (ap (λ t. same_type t note) (sym is_type)),
        other_type folder rebuilt_notebook rows.active row
            (ap (λ t. same_type t folder) (sym is_type)),
        own_type tag rebuilt_tag rows.active row (ap (λ t. same_type t tag) (sym is_type)),
        other_type note_tag rebuilt_edge rows.active row
            (ap (λ t. same_type t note_tag) (sym is_type)),
        other_type resource rebuilt_resource rows.active row
            (ap (λ t. same_type t resource) (sym is_type)),
      )
      refl

pub push_note_tag :
    (row : ActiveRow) (rows : IncrementalRows)
    → note_tag ≡ row.item_type
    → record (by_type rows) { note_tags = (by_type rows).note_tags ++ (rebuilt_edge row ∷ []) }
      ≡ by_type (record rows { active = rows.active ++ (row ∷ []) })
push_note_tag row rows is_type =
    rw
      (
        other_type note rebuilt_note rows.active row (ap (λ t. same_type t note) (sym is_type)),
        other_type folder rebuilt_notebook rows.active row
            (ap (λ t. same_type t folder) (sym is_type)),
        other_type tag rebuilt_tag rows.active row (ap (λ t. same_type t tag) (sym is_type)),
        own_type note_tag rebuilt_edge rows.active row
            (ap (λ t. same_type t note_tag) (sym is_type)),
        other_type resource rebuilt_resource rows.active row
            (ap (λ t. same_type t resource) (sym is_type)),
      )
      refl

pub push_resource :
    (row : ActiveRow) (rows : IncrementalRows)
    → resource ≡ row.item_type
    → record (by_type rows) { resources = (by_type rows).resources ++ (rebuilt_resource row ∷ []) }
      ≡ by_type (record rows { active = rows.active ++ (row ∷ []) })
push_resource row rows is_type =
    rw
      (
        other_type note rebuilt_note rows.active row (ap (λ t. same_type t note) (sym is_type)),
        other_type folder rebuilt_notebook rows.active row
            (ap (λ t. same_type t folder) (sym is_type)),
        other_type tag rebuilt_tag rows.active row (ap (λ t. same_type t tag) (sym is_type)),
        other_type note_tag rebuilt_edge rows.active row
            (ap (λ t. same_type t note_tag) (sym is_type)),
        own_type resource rebuilt_resource rows.active row
            (ap (λ t. same_type t resource) (sym is_type)),
      )
      refl

pub push_deleted :
    (row : DeletedRow) (rows : IncrementalRows)
    → record (by_type rows) {
      deleted_items = (by_type rows).deleted_items ++ (rebuilt_deleted row ∷ []);
    }
      ≡ by_type (record rows { deleted = rows.deleted ++ (row ∷ []) })
push_deleted row rows =
    ap (λ l. record (by_type rows) { deleted_items = l })
      (sym (map-append rebuilt_deleted rows.deleted (row ∷ [])))
