-- ===== src/Indexer/Tables/Apply.antt =====
-- The rows of a batch applied to the derived tables: the two loops in `apply_incremental_refresh` of
-- crates/joplin-mcpd/src/indexer/refresh.rs, against their specification as writes to the abstract map.
use joplin_mcp_rust.Prelude.{
  ℕ, ◌+◌, Bool, false, ◌&&◌, List, [], ◌∷◌, Option, none, some, if◌then◌else◌, chars,
}
use joplin_mcp_rust.Prelude.Int.{ℤ, eq_ℤ}
use joplin_mcp_rust.Time.{DateTime}
use joplin_mcp_rust.Indexer.Tables.{ActiveRow, DeletedRow, Index}
use joplin_mcp_rust.Indexer.Tables.Statements.{
  upsert_active_row, purge_active_item, purge_active_row, upsert_deleted_row, active_row_is_current,
  deleted_row_is_current,
}
use joplin_mcp_rust.Indexer.Tables.Shelf.{Shelf, asked, put}

-- The rows of the tables behind a loop, with how many of its rows it applied.
pub record Applied : Type 0 where
  pub applied_rows : ℕ
  pub tables : Index

-- `replay_boundary == Some(updated_time)`
abbrev pub at_boundary : Option ℤ → ℤ → Bool
at_boundary none updated_time = false
at_boundary (some boundary) updated_time = eq_ℤ boundary updated_time

abbrev pub step : Bool → Index → Applied → Applied
step skip next state =
    if skip then state else record { applied_rows = state.applied_rows + 1; tables = next }

unfoldable pub apply_deleted_rows : Option ℤ → ℕ → DateTime → List DeletedRow → Applied → Applied
apply_deleted_rows boundary user now [] state = state
apply_deleted_rows boundary user now (row ∷ rows) state =
    let db = state.tables in
    let skip =
      at_boundary boundary row.updated_time
      && deleted_row_is_current user row (chars "deleted_time") db in
    let next =
      upsert_deleted_row user now row (chars "deleted_time") (purge_active_row user row db) in
    apply_deleted_rows boundary user now rows (step skip next state)

unfoldable pub apply_active_rows : Option ℤ → ℕ → DateTime → List ActiveRow → Applied → Applied
apply_active_rows boundary user now [] state = state
apply_active_rows boundary user now (row ∷ rows) state =
    let db = state.tables in
    let skip = at_boundary boundary row.updated_time && active_row_is_current user row db in
    let next =
      upsert_active_row user now row (purge_active_item user row.joplin_id row.item_type db) in
    apply_active_rows boundary user now rows (step skip next state)

-- The rows of one batch: the deleted ones first.
unfoldable pub apply_batch :
    Option ℤ → ℕ → DateTime → List DeletedRow → List ActiveRow → Index → Applied
apply_batch boundary user now deleted active db =
    apply_active_rows boundary user now active
      (apply_deleted_rows boundary user now deleted (record { applied_rows = 0; tables = db }))

-- The specification: the active rows' entries are set, the deleted rows' entries are taken out.
abbrev pub write_active : ℕ → List ActiveRow → Shelf → Shelf
write_active user [] s = s
write_active user (row ∷ rows) s =
    write_active user rows (put user row.item_type row.joplin_id (asked row.item_type row) s)

abbrev pub erase_deleted : ℕ → List DeletedRow → Shelf → Shelf
erase_deleted user [] s = s
erase_deleted user (row ∷ rows) s =
    erase_deleted user rows (put user row.item_type row.joplin_id none s)
