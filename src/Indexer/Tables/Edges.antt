-- ===== src/Indexer/Tables/Edges.antt =====
-- The edges of a note behind its own row: the loop over the active rows of
-- crates/joplin-mcpd/src/indexer/refresh.rs purges an item before it writes its row.
use joplin_mcp_rust.Prelude.{
  ℕ, ◌+◌, ◌≡◌, refl, sym, subst, Bool, false, ◌&&◌, List, [], ◌∷◌, ◌++◌, Option, none, some, any,
  All, same, Bool-cases, inl, inr, arith,
}
use joplin_mcp_rust.Prelude.Int.{ℤ}
use joplin_mcp_rust.Time.{DateTime}
use joplin_mcp_rust.Indexer.Item.{
  Str, JoplinItemType, note, folder, tag, note_tag, resource, revision,
}
use joplin_mcp_rust.Indexer.Tables.{
  ActiveRow, DeletedRow, NoteTagRow, Index, edge_is, edge_of_note, edge_of_tag, delete_where,
  update_where, upsert,
}
use joplin_mcp_rust.Indexer.Tables.Statements.{
  upsert_active_row, upsert_as, upsert_edge, edge_row, purge_active_item, active_row_is_current,
}
use joplin_mcp_rust.Indexer.Tables.Keys.{any-delete_where}
use joplin_mcp_rust.Indexer.Tables.Apply.{
  Applied, at_boundary, apply_active_rows, apply_deleted_rows, apply_batch,
}

abbrev names_note : Str → Option Str → Bool
names_note id none = false
names_note id (some note_id) = same note_id id

-- No edge of the note in the table.
abbrev Untagged : ℕ → Str → List NoteTagRow → Type 0
Untagged user id edges = any (edge_of_note user id) edges ≡ false

clear_delete :
    (user : ℕ) (id : Str) (hit : NoteTagRow → Bool) (edges : List NoteTagRow)
    → Untagged user id edges
    → Untagged user id (delete_where hit edges)
unfolding delete_where
clear_delete user id hit [] h = refl
clear_delete user id hit (r ∷ rs) h =
    let later = clear_delete user id hit rs (ground arith) in
    elim (Bool-cases (hit r)) [
      | inl hits ↦ rw (delete_where, hits) later
      | inr misses ↦ rw (delete_where, misses) (ground arith)
    ]

clear_update :
    (user : ℕ) (id : Str) (hit : NoteTagRow → Bool) (edge : NoteTagRow) (edges : List NoteTagRow)
    → edge_of_note user id edge ≡ false
    → Untagged user id edges
    → Untagged user id (update_where hit (λ old. edge) edges)
unfolding update_where
clear_update user id hit edge [] other h = refl
clear_update user id hit edge (r ∷ rs) other h =
    let later = clear_update user id hit edge rs other (ground arith) in
    elim (Bool-cases (hit r)) [
      | inl hits ↦ rw (update_where, hits) (ground arith)
      | inr misses ↦ rw (update_where, misses) (ground arith)
    ]

clear_append :
    (user : ℕ) (id : Str) (edge : NoteTagRow) (edges : List NoteTagRow)
    → edge_of_note user id edge ≡ false
    → Untagged user id edges
    → Untagged user id (edges ++ (edge ∷ []))
clear_append user id edge [] other h = ground arith
clear_append user id edge (r ∷ rs) other h =
    let later = clear_append user id edge rs other (ground arith) in ground arith

clear_upsert :
    (user : ℕ) (id : Str) (hit : NoteTagRow → Bool) (edge : NoteTagRow) (edges : List NoteTagRow)
    → edge_of_note user id edge ≡ false
    → Untagged user id edges
    → Untagged user id (upsert hit edge (λ old. edge) edges)
unfolding upsert
clear_upsert user id hit edge edges other h = elim (Bool-cases (any hit edges)) [
  | inl taken ↦ rw taken (clear_update user id hit edge edges other h)
  | inr free ↦ rw free (clear_append user id edge edges other h)
]

-- The row is a note tag of this note.
abbrev pub tags_note : JoplinItemType → Str → Option Str → Bool
tags_note note_tag id note_id = names_note id note_id
tags_note _ id note_id = false

clear_edge :
    (user : ℕ) (now : DateTime) (id : Str) (row : ActiveRow) (note_id tag_id : Option Str)
    (edges : List NoteTagRow)
    → names_note id note_id ≡ false
    → Untagged user id edges
    → Untagged user id (upsert_edge user now note_id tag_id row edges)
clear_edge user now id row none tag_id edges other h = h
clear_edge user now id row (some note_id) none edges other h = h
clear_edge user now id row (some note_id) (some tag_id) edges other h =
    clear_upsert user id (edge_is user note_id tag_id) (edge_row user now note_id tag_id row) edges
      (ground arith) h

-- A row that is not a note tag of the note gives it no edge.
clear_write :
    (t : JoplinItemType) (user : ℕ) (now : DateTime) (id : Str) (row : ActiveRow) (db : Index)
    → tags_note t id row.note_joplin_id ≡ false
    → Untagged user id db.note_tags
    → Untagged user id
        (upsert_as t user now row (purge_active_item user row.joplin_id t db)).note_tags
unfolding purge_active_item
clear_write note user now id row db other h =
    clear_delete user id (edge_of_note user row.joplin_id) db.note_tags h
clear_write folder user now id row db other h = h
clear_write tag user now id row db other h =
    clear_delete user id (edge_of_tag user row.joplin_id) db.note_tags h
clear_write note_tag user now id row db other h =
    clear_edge user now id row row.note_joplin_id row.tag_joplin_id db.note_tags other h
clear_write resource user now id row db other h = h
clear_write revision user now id row db other h = h

clear_rows :
    (boundary : Option ℤ) (user : ℕ) (now : DateTime) (id : Str) (rows : List ActiveRow)
    (state : Applied)
    → All (λ r. tags_note r.item_type id r.note_joplin_id ≡ false) rows
    → Untagged user id state.tables.note_tags
    → Untagged user id (apply_active_rows boundary user now rows state).tables.note_tags
unfolding apply_active_rows upsert_active_row
clear_rows boundary user now id [] state others h = h
clear_rows boundary user now id (row ∷ rows) state (other, others) h =
    let db = state.tables in
    let written = clear_write row.item_type user now id row db other h in
    elim (Bool-cases (at_boundary boundary row.updated_time && active_row_is_current user row db)) [
      | inl skips ↦
          rw (apply_active_rows, skips) (clear_rows boundary user now id rows state others h)
      | inr applies ↦
          rw (apply_active_rows, applies)
            (clear_rows boundary user now id rows
              (record {
                applied_rows = state.applied_rows + 1;
                tables =
                    upsert_active_row user now row
                      (purge_active_item user row.joplin_id row.item_type db);
              })
              others written)
    ]

clear_behind :
    (boundary : Option ℤ) (user : ℕ) (now : DateTime) (before : List ActiveRow) (row : ActiveRow)
    (after : List ActiveRow) (state : Applied)
    → at_boundary boundary row.updated_time ≡ false
    → row.item_type ≡ note
    → All (λ r. tags_note r.item_type row.joplin_id r.note_joplin_id ≡ false) after
    → Untagged user row.joplin_id
        (apply_active_rows boundary user now (before ++ (row ∷ after)) state).tables.note_tags
unfolding apply_active_rows upsert_active_row purge_active_item
clear_behind boundary user now (first ∷ before) row after state beyond is_note others =
    clear_behind boundary user now before row after _ beyond is_note others
clear_behind boundary user now [] row after state beyond is_note others =
    rw (apply_active_rows, beyond)
      (clear_rows boundary user now row.joplin_id after
        (record {
          applied_rows = state.applied_rows + 1;
          tables =
              upsert_active_row user now row
                (purge_active_item user row.joplin_id row.item_type state.tables);
        })
        others
        (subst
          (λ t.
            Untagged user row.joplin_id
              (upsert_as t user now row
                (purge_active_item user row.joplin_id t state.tables)).note_tags)
          (sym is_note)
          (any-delete_where (edge_of_note user row.joplin_id) state.tables.note_tags)))

-- A batch that holds the row of a note beyond the replay boundary, and behind it no note tag of that note,
-- leaves no edge of the note, whichever edges there were and whatever else the batch deletes and writes.
pub edges_gone_behind_note :
    (boundary : Option ℤ) (user : ℕ) (now : DateTime) (deleted : List DeletedRow)
    (before : List ActiveRow) (row : ActiveRow) (after : List ActiveRow) (db : Index)
    → at_boundary boundary row.updated_time ≡ false
    → row.item_type ≡ note
    → All (λ r. tags_note r.item_type row.joplin_id r.note_joplin_id ≡ false) after
    → any
        (edge_of_note user row.joplin_id)
        (apply_batch boundary user now deleted (before ++ (row ∷ after)) db).tables.note_tags
      ≡ false
unfolding apply_batch
edges_gone_behind_note boundary user now deleted before row after db =
    clear_behind boundary user now before row after
      (apply_deleted_rows boundary user now deleted (record { applied_rows = 0; tables = db }))
