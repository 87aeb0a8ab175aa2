-- ===== src/Checks/Tables.antt =====
-- The derived rows at concrete inputs: a user with a tagged note, and an item that changes.
use joplin_mcp_rust.Prelude.{◌+◌, ◌≡◌, refl, false, List, [], ◌∷◌, none, some, chars, length, any}
use joplin_mcp_rust.Prelude.Int.{pos}
use joplin_mcp_rust.Indexer.Item.{Str, note, tag}
use joplin_mcp_rust.Indexer.Tables.{
  ActiveRow, DeletedRow, NoteRow, TagRow, NoteTagRow, Index, edge_of_note, delete_where,
}
use joplin_mcp_rust.Indexer.Tables.Shelf.{shelf}
use joplin_mcp_rust.Indexer.Tables.Current.{Keyed}
use joplin_mcp_rust.Indexer.Tables.Apply.{apply_batch, write_active, erase_deleted}
use joplin_mcp_rust.Indexer.Tables.Refinement.{apply_batch_sound}
use joplin_mcp_rust.Indexer.Tables.Edges.{edges_gone_behind_note}
use joplin_mcp_rust.Indexer.Tables.Reconcile.{
  JoplinItemRef, reconcile_items, reconcile_note_tag_hard_deletes,
}
use joplin_mcp_rust.Indexer.Tables.Reconcile.Laws.{keep_active, shelf-reconcile_items}
use joplin_mcp_rust.Indexer.Tables.Reconcile.EdgeLaws.{stale, reconcile_note_tag_exact}

abbrev note_one : Str
note_one = chars "n1"

abbrev tag_one : Str
tag_one = chars "t1"

abbrev indexed_note : NoteRow
indexed_note = record {
  user_id = 1;
  joplin_item_id = chars "i1";
  joplin_id = note_one;
  parent_joplin_id = none;
  title = chars "Shopping";
  body_text = chars "Milk";
  is_todo = false;
  created_time = some (pos 3);
  updated_time = some (pos 4);
  deleted_time = none;
  resource_refs = [];
  indexed_at = pos 0;
}

abbrev indexed_tag : TagRow
indexed_tag = record {
  user_id = 1;
  joplin_item_id = chars "i2";
  joplin_id = tag_one;
  title = chars "home";
  updated_time = some (pos 4);
  indexed_at = pos 0;
}

abbrev indexed_edge : NoteTagRow
indexed_edge = record {
  user_id = 1;
  note_joplin_id = note_one;
  tag_joplin_id = tag_one;
  updated_time = some (pos 4);
  indexed_at = pos 0;
}

abbrev pub tagged_note : Index
tagged_note = record {
  notes = indexed_note ∷ [];
  notebooks = [];
  tags = indexed_tag ∷ [];
  note_tags = indexed_edge ∷ [];
  resources = [];
  deleted_items = [];
}

abbrev tagged_note-Keyed : Keyed tagged_note
tagged_note-Keyed = λ user id. (((λ h. refl), tt), tt, ((λ h. refl), tt), tt)

-- The note with a new body, later.
abbrev edited_note : ActiveRow
edited_note = record {
  joplin_item_id = chars "i1";
  joplin_id = note_one;
  item_type = note;
  parent_joplin_id = none;
  title = chars "Shopping";
  body_text = chars "Bread";
  is_todo = false;
  created_time = pos 3;
  updated_time = pos 8;
  resource_refs = [];
  mime = none;
  size_bytes = none;
  file_extension = none;
  note_joplin_id = none;
  tag_joplin_id = none;
}

abbrev deleted_tag : DeletedRow
deleted_tag = record {
  joplin_id = tag_one;
  item_type = tag;
  updated_time = pos 7;
  deleted_time = some (pos 7);
  note_joplin_id = none;
  tag_joplin_id = none;
}

apply_batch_sound_example :
    shelf
      (apply_batch
        (some (pos 5))
        1
        (pos 9)
        (deleted_tag ∷ [])
        (edited_note ∷ [])
        tagged_note).tables
    ≡ write_active 1 (edited_note ∷ []) (erase_deleted 1 (deleted_tag ∷ []) (shelf tagged_note))
apply_batch_sound_example =
    apply_batch_sound (some (pos 5)) 1 (pos 9) (deleted_tag ∷ []) (edited_note ∷ []) tagged_note
      tagged_note-Keyed (refl, tt)

edges_gone_behind_note_example :
    any
      (edge_of_note 1 note_one)
      (apply_batch
        (some (pos 5))
        1
        (pos 9)
        []
        (edited_note ∷ edited_note ∷ [])
        tagged_note).tables.note_tags
    ≡ false
edges_gone_behind_note_example =
    edges_gone_behind_note (some (pos 5)) 1 (pos 9) [] (edited_note ∷ []) edited_note [] tagged_note
      refl refl tt

abbrev tag_left : List JoplinItemRef
tag_left = record { joplin_id = tag_one; item_type = tag } ∷ []

shelf-reconcile_items_example :
    shelf (reconcile_items 1 (pos 9) tag_left tagged_note).tables
    ≡ keep_active 1 tag_left (shelf tagged_note)
shelf-reconcile_items_example = shelf-reconcile_items 1 (pos 9) tag_left tagged_note

reconcile_note_tag_exact_example :
    let done = reconcile_note_tag_hard_deletes 1 [] tagged_note in
    (done.tables ≡ record tagged_note {
      note_tags = delete_where (stale 1 [] tagged_note) tagged_note.note_tags;
    })
    × (done.reconciled + length done.tables.note_tags ≡ length tagged_note.note_tags)
reconcile_note_tag_exact_example = reconcile_note_tag_exact 1 [] tagged_note
