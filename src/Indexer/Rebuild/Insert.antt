-- ===== src/Indexer/Rebuild/Insert.antt =====
-- The statements of a rebuild on the derived tables, in crates/joplin-mcpd/src/indexer/rebuild.rs. An
-- INSERT of a key that is there fails.
use joplin_mcp_rust.Prelude.{
  ℕ, ◌≡◌, sym, ◌∙◌, ap, Bool, List, [], ◌∷◌, ◌++◌, none, some, ◌==◌, if◌then◌else◌, chars, any,
  length, map, Result, ok, err, ◌>>=◌, Bool-cases, inl, inr, String,
}
use joplin_mcp_rust.Time.{DateTime}
use joplin_mcp_rust.Keyset.{filter}
use joplin_mcp_rust.Keyset.Laws.{append_assoc, append_nil}
use joplin_mcp_rust.Indexer.Tables.{
  Index, delete_where, note_is, notebook_is, tag_is, resource_is, edge_is, deleted_item_is,
}
use joplin_mcp_rust.Indexer.Tables as Tables
use joplin_mcp_rust.Indexer.Tables.Reconcile.{dangling}
use joplin_mcp_rust.Indexer.Rebuild.{
  NoteRow, NotebookRow, TagRow, NoteTagRow, ResourceRow, DeletedItemRow, RebuildRows,
}

-- `INSERT` of rows, one behind the other: `hit` finds the rows with the key of a new one.
unfoldable pub insert_rows :
    {A R : Type 0} → String → (A → R → Bool) → (A → R) → List A → List R → Result String (List R)
insert_rows context hit make [] rs = ok rs
insert_rows context hit make (a ∷ rest) rs =
    let later = insert_rows context hit make rest (rs ++ (make a ∷ [])) in
    if any (hit a) rs then err context else later

abbrev pub note_of : ℕ → DateTime → NoteRow → Tables.NoteRow
note_of user now row = record {
  user_id = user;
  joplin_item_id = row.joplin_item_id;
  joplin_id = row.joplin_id;
  parent_joplin_id = row.parent_joplin_id;
  title = row.title;
  body_text = row.body_text;
  is_todo = row.is_todo;
  created_time = some row.created_time;
  updated_time = some row.updated_time;
  deleted_time = none;
  resource_refs = row.resource_refs;
  indexed_at = now;
}

abbrev pub notebook_of : ℕ → DateTime → NotebookRow → Tables.NotebookRow
notebook_of user now row = record {
  user_id = user;
  joplin_item_id = row.joplin_item_id;
  joplin_id = row.joplin_id;
  parent_joplin_id = row.parent_joplin_id;
  title = row.title;
  created_time = some row.created_time;
  updated_time = some row.updated_time;
  deleted_time = none;
  indexed_at = now;
}

abbrev pub tag_of : ℕ → DateTime → TagRow → Tables.TagRow
tag_of user now row = record {
  user_id = user;
  joplin_item_id = row.joplin_item_id;
  joplin_id = row.joplin_id;
  title = row.title;
  updated_time = some row.updated_time;
  indexed_at = now;
}

abbrev pub edge_of : ℕ → DateTime → NoteTagRow → Tables.NoteTagRow
edge_of user now row = record {
  user_id = user;
  note_joplin_id = row.note_joplin_id;
  tag_joplin_id = row.tag_joplin_id;
  updated_time = some row.updated_time;
  indexed_at = now;
}

abbrev pub resource_of : ℕ → DateTime → ResourceRow → Tables.ResourceRow
resource_of user now row = record {
  user_id = user;
  joplin_item_id = row.joplin_item_id;
  joplin_id = row.joplin_id;
  title = row.title;
  mime = row.mime;
  size_bytes = row.size_bytes;
  file_extension = row.file_extension;
  updated_time = some row.updated_time;
  indexed_at = now;
}

abbrev pub deleted_item_of : ℕ → DateTime → DeletedItemRow → Tables.DeletedItemRow
deleted_item_of user now row = record {
  user_id = user;
  joplin_id = row.joplin_id;
  item_type = row.item_type;
  source = chars "full_rebuild";
  deleted_time = row.deleted_time;
  tombstoned_at = now;
}

unfoldable pub insert_rebuild_rows : ℕ → DateTime → RebuildRows → Index → Result String Index
insert_rebuild_rows user now rows db = do
  notebooks ←
      insert_rows "insert notebook index rows" (λ row. notebook_is user row.joplin_id)
        (notebook_of user now) rows.notebooks db.notebooks
  notes ←
      insert_rows "insert note index rows" (λ row. note_is user row.joplin_id) (note_of user now)
        rows.notes db.notes
  tags ←
      insert_rows "insert tag index rows" (λ row. tag_is user row.joplin_id) (tag_of user now)
        rows.tags db.tags
  note_tags ←
      insert_rows "insert note tag index rows"
        (λ row. edge_is user row.note_joplin_id row.tag_joplin_id) (edge_of user now) rows.note_tags
        db.note_tags
  resources ←
      insert_rows "insert resource index rows" (λ row. resource_is user row.joplin_id)
        (resource_of user now) rows.resources db.resources
  deleted_items ←
      insert_rows "insert deleted item index rows" (λ row. deleted_item_is user row.joplin_id)
        (deleted_item_of user now) rows.deleted_items db.deleted_items
  ok (record {
    notes = notes;
    notebooks = notebooks;
    tags = tags;
    note_tags = note_tags;
    resources = resources;
    deleted_items = deleted_items;
  })

-- DELETE_DERIVED_ROWS_SQL
unfoldable pub delete_derived_rows : ℕ → Index → Index
delete_derived_rows user db = record {
  notes = delete_where (λ r. r.user_id == user) db.notes;
  notebooks = delete_where (λ r. r.user_id == user) db.notebooks;
  tags = delete_where (λ r. r.user_id == user) db.tags;
  note_tags = delete_where (λ r. r.user_id == user) db.note_tags;
  resources = delete_where (λ r. r.user_id == user) db.resources;
  deleted_items = delete_where (λ r. r.user_id == user) db.deleted_items;
}

unfoldable pub prune_dangling_note_tags_in_db : ℕ → Index → Index
prune_dangling_note_tags_in_db user db = record db {
  note_tags = delete_where (dangling user db) db.note_tags;
}

unfoldable pub count_note_tags : ℕ → Index → ℕ
count_note_tags user db = length (filter (λ r. r.user_id == user) db.note_tags)

abbrev ok_value : {E A : Type 0} → A → Result E A → A
ok_value default (err e) = default
ok_value default (ok a) = a

-- Rows that are inserted stand behind those that were there.
pub insert_rows-append :
    {A R : Type 0} (context : String) (hit : A → R → Bool) (make : A → R) (xs : List A)
    (rs done : List R)
    → insert_rows context hit make xs rs ≡ ok done
    → done ≡ rs ++ map make xs
unfolding insert_rows
insert_rows-append context hit make [] rs done h =
    let none_left : rs ≡ done = ap (ok_value rs) h in sym none_left ∙ sym (append_nil rs)
insert_rows-append context hit make (x ∷ xs) rs done h = elim (Bool-cases (any (hit x) rs)) [
  | inl taken ↦ let bad : err context ≡ ok done = rw (insert_rows, taken) at h in absurd cc
  | inr free ↦
      let later : insert_rows context hit make xs (rs ++ (make x ∷ [])) ≡ ok done =
        rw (insert_rows, free) at h in
      insert_rows-append context hit make xs (rs ++ (make x ∷ [])) done later
      ∙ append_assoc rs (make x ∷ []) (map make xs)
]
