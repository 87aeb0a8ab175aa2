-- ===== src/Checks/Listing.antt =====
-- A list of three notes, read two at a time.
use joplin_mcp_rust.Prelude.{
  same, ◌≡◌, refl, false, List, [], ◌∷◌, Option, none, some, chars, map, concat, arith,
}
use joplin_mcp_rust.Prelude.Int.{ℤ, pos}
use joplin_mcp_rust.Keyset.Walk.{walk}
use joplin_mcp_rust.Indexer.Item.{Str}
use joplin_mcp_rust.Indexer.Tables.{NoteRow, Index}
use joplin_mcp_rust.Tools.Listing.{
  NoteListRequest, NoteListItem, note_list_item, listed, list_notes,
}
use joplin_mcp_rust.Tools.Listing.Laws.{in_order, list_notes_complete}

abbrev note_of : Str → Option ℤ → NoteRow
note_of id time = record {
  user_id = 1;
  joplin_item_id = id;
  joplin_id = id;
  parent_joplin_id = none;
  title = chars "A note";
  body_text = chars "Text";
  is_todo = false;
  created_time = time;
  updated_time = time;
  deleted_time = none;
  resource_refs = [];
  indexed_at = pos 0;
}

abbrev three_notes : Index
three_notes = record {
  notes =
      note_of (chars "a") (some (pos 5))
      ∷ note_of (chars "b") none
      ∷ note_of (chars "c") (some (pos 5))
      ∷ [];
  notebooks = [];
  tags = [];
  note_tags = [];
  resources = [];
  deleted_items = [];
}

abbrev two_at_a_time : NoteListRequest
two_at_a_time = record {
  notebook_id = none;
  tag_ids = [];
  updated_after = none;
  updated_before = none;
  is_todo = some false;
  limit = 2;
}

list_notes_complete_example :
    (pages : List (List NoteListItem)) × (walk (list_notes three_notes 1 two_at_a_time) 4 none
      ≡ some pages)
    × (concat pages
        ≡ map note_list_item (in_order (listed three_notes 1 two_at_a_time) three_notes.notes))
unfolding same
list_notes_complete_example =
    list_notes_complete three_notes 1 two_at_a_time ((refl, (refl, tt)), ((refl, tt), (tt, tt)))
      (omega arith)
