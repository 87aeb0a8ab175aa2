-- ===== src/Indexer/Tables/Refinement.antt =====
-- Applying the rows of a batch, against its specification: each table keeps its keys, and the abstract
-- map comes out as the specification says.
use joplin_mcp_rust.Prelude.{
  ℕ, ◌+◌, ◌≡◌, refl, sym, ◌∙◌, ap, false, ◌&&◌, List, [], ◌∷◌, Option, none, chars, All, Bool-cases,
  inl, inr, both,
}
use joplin_mcp_rust.Prelude.Int.{ℤ}
use joplin_mcp_rust.Time.{DateTime}
use joplin_mcp_rust.Indexer.Item.{
  Str, JoplinItemType, note, folder, tag, note_tag, resource, revision,
}
use joplin_mcp_rust.Indexer.Tables.{
  ActiveRow, DeletedRow, Index, note_is, notebook_is, tag_is, resource_is,
}
use joplin_mcp_rust.Indexer.Tables.Statements.{
  upsert_active_row, purge_active_item, purge_active_row, upsert_deleted_row, active_row_is_current,
  upsert_as, note_row, notebook_row, tag_row, resource_row,
}
use joplin_mcp_rust.Indexer.Tables.Keys.{AtMostOne-delete_where, AtMostOne-replace}
use joplin_mcp_rust.Indexer.Tables.Shelf.{shelf, asked, put}
use joplin_mcp_rust.Indexer.Tables.Writes.{
  shelf-replace_active_row, shelf-purge_active_row, shelf_tombstones, replace_active_row,
}
use joplin_mcp_rust.Indexer.Tables.Current.{Keyed, shelf-current}
use joplin_mcp_rust.Indexer.Tables.Apply.{
  Applied, at_boundary, step, apply_batch, apply_deleted_rows, apply_active_rows, write_active,
  erase_deleted,
}

keyed_replace_as :
    (user : ℕ) (now : DateTime) (t : JoplinItemType) (row : ActiveRow) (db : Index)
    → Keyed db
    → Keyed (upsert_as t user now row (purge_active_item user row.joplin_id t db))
unfolding purge_active_item
keyed_replace_as user now note row db keyed = λ u i.
    let (notes, notebooks, tags, resources) = keyed u i in
    let new = note_row user now row in
    (
      AtMostOne-replace (λ r. r.user_id) (λ r. r.joplin_id) user u row.joplin_id i new (λ old. new)
          db.notes refl refl notes,
      notebooks,
      tags,
      resources,
    )
keyed_replace_as user now folder row db keyed = λ u i.
    let (notes, notebooks, tags, resources) = keyed u i in
    let new = notebook_row user now row in
    (
      notes,
      AtMostOne-replace (λ r. r.user_id) (λ r. r.joplin_id) user u row.joplin_id i new (λ old. new)
          db.notebooks refl refl notebooks,
      tags,
      resources,
    )
keyed_replace_as user now tag row db keyed = λ u i.
    let (notes, notebooks, tags, resources) = keyed u i in
    let new = tag_row user now row in
    (
      notes,
      notebooks,
      AtMostOne-replace (λ r. r.user_id) (λ r. r.joplin_id) user u row.joplin_id i new (λ old. new)
          db.tags refl refl tags,
      resources,
    )
keyed_replace_as user now resource row db keyed = λ u i.
    let (notes, notebooks, tags, resources) = keyed u i in
    let new = resource_row user now row in
    (
      notes,
      notebooks,
      tags,
      AtMostOne-replace (λ r. r.user_id) (λ r. r.joplin_id) user u row.joplin_id i new (λ old. new)
          db.resources refl refl resources,
    )
keyed_replace_as user now note_tag row db keyed = keyed
keyed_replace_as user now revision row db keyed = keyed

keyed_replace :
    (user : ℕ) (now : DateTime) (row : ActiveRow) (db : Index)
    → Keyed db
    → Keyed (replace_active_row user now row db)
unfolding upsert_active_row
keyed_replace user now row db keyed = keyed_replace_as user now row.item_type row db keyed

keyed_purge_item :
    (user : ℕ) (t : JoplinItemType) (id : Str) (db : Index)
    → Keyed db
    → Keyed (purge_active_item user id t db)
unfolding purge_active_item
keyed_purge_item user note id db keyed = λ u i.
    let (notes, notebooks, tags, resources) = keyed u i in
    (
      AtMostOne-delete_where (note_is u i) (note_is user id) db.notes notes,
      notebooks,
      tags,
      resources,
    )
keyed_purge_item user folder id db keyed = λ u i.
    let (notes, notebooks, tags, resources) = keyed u i in
    (
      notes,
      AtMostOne-delete_where (notebook_is u i) (notebook_is user id) db.notebooks notebooks,
      tags,
      resources,
    )
keyed_purge_item user tag id db keyed = λ u i.
    let (notes, notebooks, tags, resources) = keyed u i in
    (notes, notebooks, AtMostOne-delete_where (tag_is u i) (tag_is user id) db.tags tags, resources)
keyed_purge_item user resource id db keyed = λ u i.
    let (notes, notebooks, tags, resources) = keyed u i in
    (
      notes,
      notebooks,
      tags,
      AtMostOne-delete_where (resource_is u i) (resource_is user id) db.resources resources,
    )
keyed_purge_item user note_tag id db keyed = keyed
keyed_purge_item user revision id db keyed = keyed

abbrev bury : ℕ → DateTime → DeletedRow → Index → Index
bury user now row db =
    upsert_deleted_row user now row (chars "deleted_time") (purge_active_row user row db)

keyed_bury :
    (user : ℕ) (now : DateTime) (row : DeletedRow) (db : Index)
    → Keyed db
    → Keyed (bury user now row db)
unfolding upsert_deleted_row purge_active_row
keyed_bury user now row db keyed = keyed_purge_item user row.item_type row.joplin_id db keyed

pub shelf-bury :
    (user : ℕ) (now : DateTime) (source : Str) (row : DeletedRow) (db : Index)
    → shelf (upsert_deleted_row user now row source (purge_active_row user row db))
      ≡ put user row.item_type row.joplin_id none (shelf db)
unfolding upsert_deleted_row
shelf-bury user now source row db =
    shelf_tombstones (purge_active_row user row db)
      (upsert_deleted_row user now row source (purge_active_row user row db)).deleted_items
    ∙ shelf-purge_active_row user row db

apply_active_one :
    (boundary : Option ℤ) (user : ℕ) (now : DateTime) (row : ActiveRow) (state : Applied)
    → Keyed state.tables
    → let next =
        step
          (at_boundary boundary row.updated_time && active_row_is_current user row state.tables)
          (replace_active_row user now row state.tables)
          state in
      Keyed next.tables
      × (shelf next.tables
          ≡ put user row.item_type row.joplin_id (asked row.item_type row) (shelf state.tables))
apply_active_one boundary user now row state keyed =
    elim (Bool-cases
      (at_boundary boundary row.updated_time && active_row_is_current user row state.tables)) [
        | inl skip ↦
            let current =
              (both (at_boundary boundary row.updated_time)
                (active_row_is_current user row state.tables) skip).1 in
            rw (skip) (keyed, sym (shelf-current user row state.tables keyed current))
        | inr apply ↦ rw (apply) (
          keyed_replace user now row state.tables keyed,
          shelf-replace_active_row user now row state.tables,
        )
      ]

-- The loop over the active rows implements its specification, whichever rows it skips.
pub apply_active_sound :
    (boundary : Option ℤ) (user : ℕ) (now : DateTime) (rows : List ActiveRow) (state : Applied)
    → Keyed state.tables
    → shelf (apply_active_rows boundary user now rows state).tables
      ≡ write_active user rows (shelf state.tables)
unfolding apply_active_rows
apply_active_sound boundary user now [] state keyed = refl
apply_active_sound boundary user now (row ∷ rows) state keyed =
    let next =
      step (at_boundary boundary row.updated_time && active_row_is_current user row state.tables)
        (replace_active_row user now row state.tables) state in
    let (still_keyed, written) = apply_active_one boundary user now row state keyed in
    apply_active_sound boundary user now rows next still_keyed ∙ ap (write_active user rows) written

-- Deleted rows beyond the boundary are all taken out.
pub apply_deleted_sound :
    (boundary : Option ℤ) (user : ℕ) (now : DateTime) (rows : List DeletedRow) (state : Applied)
    → Keyed state.tables
    → All (λ row. at_boundary boundary row.updated_time ≡ false) rows
    → let done = apply_deleted_rows boundary user now rows state in
      Keyed done.tables × (shelf done.tables ≡ erase_deleted user rows (shelf state.tables))
unfolding apply_deleted_rows
apply_deleted_sound boundary user now [] state keyed beyond = (keyed, refl)
apply_deleted_sound boundary user now (row ∷ rows) state keyed (here, beyond) =
    let next : Applied = record {
      applied_rows = state.applied_rows + 1;
      tables = bury user now row state.tables;
    } in
    let (still_keyed, erased) =
      apply_deleted_sound boundary user now rows next (keyed_bury user now row state.tables keyed)
        beyond in
    rw (apply_deleted_rows, here)
      (
        still_keyed,
        erased
            ∙ ap (erase_deleted user rows)
                (shelf-bury user now (chars "deleted_time") row state.tables),
      )

-- A batch whose deleted rows lie beyond the replay boundary: the loop over its deleted rows and then the
-- loop over its active rows leave the abstract map of the tables with the deleted rows' entries taken out
-- and then the active rows' entries set, where each table holds a key once at the start. A row skipped as
-- current makes no difference to it.
pub apply_batch_sound :
    (boundary : Option ℤ) (user : ℕ) (now : DateTime) (deleted : List DeletedRow)
    (active : List ActiveRow) (db : Index)
    → Keyed db
    → All (λ row. at_boundary boundary row.updated_time ≡ false) deleted
    → shelf (apply_batch boundary user now deleted active db).tables
      ≡ write_active user active (erase_deleted user deleted (shelf db))
unfolding apply_batch
apply_batch_sound boundary user now deleted active db keyed beyond =
    let start : Applied = record { applied_rows = 0; tables = db } in
    let (still_keyed, erased) = apply_deleted_sound boundary user now deleted start keyed beyond in
    apply_active_sound boundary user now active (apply_deleted_rows boundary user now deleted start)
      still_keyed
    ∙ ap (write_active user active) erased
