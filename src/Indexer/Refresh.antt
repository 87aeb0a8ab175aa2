-- ===== src/Indexer/Refresh.antt =====
-- `apply_incremental_refresh` of crates/joplin-mcpd/src/indexer/refresh.rs: the loop over the batches that
-- the source answers, the reconciliation of hard deletes and the state row, in one transaction.
pub mod Laws
use joplin_mcp_rust.Prelude.{
  ℕ, suc, zero, ◌+◌, Bool, true, false, ◌||◌, List, [], ◌∷◌, Option, none, some, Result, ok, err,
  ◌>>=◌, if◌then◌else◌, ltb, length, last?, is_empty, map_option, map, or_else, String,
}
use joplin_mcp_rust.Prelude.Int.{ℤ}
use joplin_mcp_rust.Time.{DateTime}
use joplin_mcp_rust.Indexer.State.{
  Table, IndexConfig, greatest, hard_delete_reconciliation_due, mark_incremental_ready,
}
use joplin_mcp_rust.Indexer.Item.{Str, JoplinItem}
use joplin_mcp_rust.Indexer.Parser.{Engine}
use joplin_mcp_rust.Indexer.Rows.{IncrementalRows, build_incremental_rows}
use joplin_mcp_rust.Indexer.Tables.{Index}
use joplin_mcp_rust.Indexer.Tables.Apply.{Applied, apply_batch}
use joplin_mcp_rust.Indexer.Tables.Reconcile.{
  JoplinItemRef, JoplinNoteTagRef, Reconciled, reconcile_hard_deletes,
}
use joplin_mcp_rust.Indexer.Source.{JoplinItemCursor, cursor_of, joplin_item_batch_size}

-- The trait `JoplinSource`: what the refresh asks of it; an error is its text.
pub record JoplinSource : Type 0 where
  pub changed_items_batch :
      Str → Option ℤ → Option JoplinItemCursor → ℕ → Result String (List JoplinItem)
  pub active_item_refs : Str → Result String (Option (List JoplinItemRef))
  pub active_note_tag_refs : Str → Result String (Option (List JoplinNoteTagRef))

pub record RefreshUser : Type 0 where
  pub mcp_user_id : ℕ
  pub joplin_user_id : Str
  pub last_incremental_at : Option DateTime
  pub last_full_rebuild_at : Option DateTime
  pub last_reconciled_at : Option DateTime
  pub last_seen_joplin_updated_time : Option ℤ

pub record IncrementalTotals : Type 0 where
  pub changed_items : ℕ
  pub reconciled_deleted_items : ℕ
  pub skipped_encrypted : ℕ
  pub skipped_malformed : ℕ
  pub skipped_wrong_owner : ℕ
  pub last_seen_joplin_updated_time : Option ℤ

abbrev pub no_totals : IncrementalTotals
no_totals = record {
  changed_items = 0;
  reconciled_deleted_items = 0;
  skipped_encrypted = 0;
  skipped_malformed = 0;
  skipped_wrong_owner = 0;
  last_seen_joplin_updated_time = none;
}

-- `IncrementalTotals::add_rows`; `greatest` is the maximum of what is there.
unfoldable pub add_rows : IncrementalRows → Option ℤ → IncrementalTotals → IncrementalTotals
add_rows rows previous totals = record totals {
  skipped_encrypted = totals.skipped_encrypted + rows.skipped_encrypted;
  skipped_malformed = totals.skipped_malformed + rows.skipped_malformed;
  skipped_wrong_owner = totals.skipped_wrong_owner + rows.skipped_wrong_owner;
  last_seen_joplin_updated_time =
      greatest rows.last_seen_joplin_updated_time
        (or_else totals.last_seen_joplin_updated_time previous);
}

-- What the transaction has written, and the totals.
pub record Progress : Type 0 where
  pub totals : IncrementalTotals
  pub tables : Index

-- One round of the loop.
unfoldable pub apply_changed :
    Engine → RefreshUser → DateTime → List JoplinItem → Progress → Progress
apply_changed e user now changed progress =
    let rows = build_incremental_rows e user.joplin_user_id changed in
    let boundary = user.last_seen_joplin_updated_time in
    let applied =
      apply_batch boundary user.mcp_user_id now rows.deleted rows.active progress.tables in
    let counted : IncrementalTotals = record progress.totals {
      changed_items = progress.totals.changed_items + applied.applied_rows;
    } in
    record { totals = add_rows rows boundary counted; tables = applied.tables }

-- The body of a transaction that has failed: its error, and the rows as it had written them by then.
pub record Failure : Type 0 where
  pub error : String
  pub written : Index

abbrev pub failing : {A : Type 0} → Index → Result String A → Result Failure A
failing written (ok value) = ok value
failing written (err error) = err (record { error = error; written = written })

-- The loop; none when the fuel runs out.
unfoldable pub apply_batches :
    Engine
    → JoplinSource
    → RefreshUser
    → DateTime
    → ℕ
    → Option JoplinItemCursor
    → Progress
    → Option (Result Failure Progress)
apply_batches e source user now zero after progress = none
apply_batches e source user now (suc fuel) after progress =
    elim (source.changed_items_batch user.joplin_user_id user.last_seen_joplin_updated_time after
      joplin_item_batch_size) [
        | err error ↦ some (
            err (record {
              error = "load changed Joplin item batch for incremental refresh";
              written = progress.tables;
            }))
        | ok changed ↦
            let next = apply_changed e user now changed progress in
            let later =
              apply_batches e source user now fuel (map_option cursor_of (last? changed)) next in
            if is_empty changed
            then some (ok progress)
            else if ltb (length changed) joplin_item_batch_size
            then some (ok next)
            else later
      ]

-- The rows of a refresh that went through, and the row of its state.
pub record Refreshed : Type 0 where
  pub outcome : IncrementalTotals
  pub tables : Index
  pub index_state : Table

abbrev reconcile_if :
    Bool → JoplinSource → RefreshUser → DateTime → Progress → Result Failure Progress
reconcile_if false source user now progress = ok progress
reconcile_if true source user now progress = do
  active_refs ← failing progress.tables (source.active_item_refs user.joplin_user_id)
  active_note_tag_refs ← failing progress.tables (source.active_note_tag_refs user.joplin_user_id)
  let done =
      reconcile_hard_deletes user.mcp_user_id now active_refs active_note_tag_refs progress.tables
  ok (record {
    totals = record progress.totals { reconciled_deleted_items = done.reconciled };
    tables = done.tables;
  })

abbrev pub finish :
    JoplinSource
    → RefreshUser
    → IndexConfig
    → DateTime
    → Table
    → Progress
    → Result Failure Refreshed
finish source user config now state progress = do
  let reconcile_due =
      hard_delete_reconciliation_due user.last_reconciled_at
        config.hard_delete_reconcile_interval_hours now
  done ← reconcile_if reconcile_due source user now progress
  let last_seen =
      or_else done.totals.last_seen_joplin_updated_time user.last_seen_joplin_updated_time
  ok (record {
    outcome = done.totals;
    tables = done.tables;
    index_state =
        mark_incremental_ready user.mcp_user_id last_seen
          (ltb 0 done.totals.changed_items || ltb 0 done.totals.reconciled_deleted_items)
          reconcile_due now state;
  })

-- `mark_incremental_ready` writes the state last, so the state at a failure is the one given.
unfoldable pub apply_incremental_refresh :
    Engine
    → JoplinSource
    → RefreshUser
    → IndexConfig
    → DateTime
    → ℕ
    → Index
    → Table
    → Option (Result Failure Refreshed)
apply_incremental_refresh e source user config now fuel tables state =
    map_option (λ result. result >>= finish source user config now state)
      (apply_batches e source user now fuel none (record { totals = no_totals; tables = tables }))
