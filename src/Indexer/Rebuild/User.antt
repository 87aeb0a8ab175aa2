-- ===== src/Indexer/Rebuild/User.antt =====
-- `incremental_refresh_user` of crates/joplin-mcpd/src/indexer/refresh.rs and `full_rebuild_user` of
-- rebuild.rs: a refresh in its transaction, under the lock of the user. What a failed body has written is
-- seen inside the transaction only: `rollback` gives it up, and the failure is recorded behind it.
pub mod Laws
use joplin_mcp_rust.Prelude.{
  ℕ, Bool, true, false, not, ◌||◌, Option, none, some, Result, ok, err, if◌then◌else◌, map_option,
  String, is_some_and,
}
use joplin_mcp_rust.Time.{DateTime}
use joplin_mcp_rust.Indexer.State.{
  Table, IndexConfig, requires_full_rebuild, refresh_gap_seconds, full_rebuild_due,
  mark_stale_if_needed, mark_building, record_incremental_failure, record_rebuild_failure,
  is_servable_status,
}
use joplin_mcp_rust.Indexer.Item.{Str}
use joplin_mcp_rust.Indexer.Parser.{Engine}
use joplin_mcp_rust.Indexer.Tables.{Index}
use joplin_mcp_rust.Indexer.Refresh.{
  JoplinSource, RefreshUser, IncrementalTotals, Refreshed, Failure, apply_incremental_refresh,
}
use joplin_mcp_rust.Indexer.Rebuild.Stream.{
  RebuildStats, Committed, full_rebuild_user_in_transaction,
}

-- `IncrementalRefreshOutcome`, by the way that it was come by.
pub data RefreshOutcome : Type 0 where
  skipped_lock : RefreshOutcome
  from_full_rebuild : RebuildStats → RefreshOutcome
  refreshed : IncrementalTotals → RefreshOutcome

-- The answer of a call, and the tables behind it.
pub record Outcome : Type 0 where
  pub answer : Result String RefreshOutcome
  pub rows : Index
  pub index_state : Table

-- The tables that a transaction reads and writes.
pub record Db : Type 0 where
  pub rows : Index
  pub index_state : Table

-- A transaction: the tables at its BEGIN, and as its statements have left them.
pub record Transaction : Type 0 where
  pub begun : Db
  pub current : Db

abbrev pub commit : Transaction → Db
commit tx = tx.current

abbrev pub rollback : Transaction → Db
rollback tx = tx.begun

-- `record_incremental_failure` runs behind the end of the transaction.
abbrev pub after_rebuild : ℕ → DateTime → Db → Result Failure Committed → Outcome
after_rebuild user now db (ok done) =
    let tx : Transaction = record {
      begun = db;
      current = record { rows = done.rows; index_state = done.index_state };
    } in
    let after = commit tx in
    record {
      answer = ok (from_full_rebuild done.outcome);
      rows = after.rows;
      index_state = after.index_state;
    }
after_rebuild user now db (err failure) =
    let tx : Transaction = record {
      begun = db;
      current = record {
        rows = failure.written;
        index_state = mark_building user now db.index_state;
      };
    } in
    let after = rollback tx in
    record {
      answer = err failure.error;
      rows = after.rows;
      index_state = record_incremental_failure user failure.error now after.index_state;
    }

-- `marked` is the state that `mark_stale_if_needed` wrote in the transaction.
abbrev pub after_refresh : ℕ → DateTime → Db → Table → Result Failure Refreshed → Outcome
after_refresh user now db marked (ok done) =
    let tx : Transaction = record {
      begun = db;
      current = record { rows = done.tables; index_state = done.index_state };
    } in
    let after = commit tx in
    record {
      answer = ok (refreshed done.outcome);
      rows = after.rows;
      index_state = after.index_state;
    }
after_refresh user now db marked (err failure) =
    let tx : Transaction = record {
      begun = db;
      current = record { rows = failure.written; index_state = marked };
    } in
    let after = rollback tx in
    record {
      answer = err failure.error;
      rows = after.rows;
      index_state = record_incremental_failure user failure.error now after.index_state;
    }

-- `lock_acquired` is the answer of `pg_try_advisory_xact_lock`.
unfoldable pub incremental_refresh_user :
    Engine
    → JoplinSource
    → RefreshUser
    → IndexConfig
    → DateTime
    → ℕ
    → Bool
    → Index
    → Table
    → Option Outcome
incremental_refresh_user e source user config now fuel lock_acquired db state =
    if not lock_acquired
    then some (record { answer = ok skipped_lock; rows = db; index_state = state })
    else if requires_full_rebuild (refresh_gap_seconds user.last_incremental_at now)
          config.incremental_lookback_max_seconds
        || full_rebuild_due user.last_full_rebuild_at config.full_rebuild_interval_hours now
    then map_option (after_rebuild user.mcp_user_id now (record { rows = db; index_state = state }))
        (full_rebuild_user_in_transaction e source user.mcp_user_id now user.joplin_user_id fuel db
          state)
    else let marked =
        mark_stale_if_needed user.mcp_user_id user.last_incremental_at
          config.refresh_interval_seconds now state in
      map_option
        (after_refresh user.mcp_user_id now (record { rows = db; index_state = state }) marked)
        (apply_incremental_refresh e source user config now fuel db marked)

-- The transaction is dropped by an error, and so rolled back.
abbrev pub rebuilt_or_recorded : ℕ → DateTime → Db → Result Failure Committed → Outcome
rebuilt_or_recorded user now db (ok done) =
    let tx : Transaction = record {
      begun = db;
      current = record { rows = done.rows; index_state = done.index_state };
    } in
    let after = commit tx in
    record {
      answer = ok (from_full_rebuild done.outcome);
      rows = after.rows;
      index_state = after.index_state;
    }
rebuilt_or_recorded user now db (err failure) =
    let tx : Transaction = record {
      begun = db;
      current = record {
        rows = failure.written;
        index_state = mark_building user now db.index_state;
      };
    } in
    let after = rollback tx in
    let previous_servable =
      is_some_and (db.index_state user) (λ row. is_servable_status row.status) in
    record {
      answer = err failure.error;
      rows = after.rows;
      index_state =
          record_rebuild_failure user previous_servable failure.error now after.index_state;
    }

unfoldable pub full_rebuild_user :
    Engine → JoplinSource → ℕ → DateTime → Str → ℕ → Index → Table → Option Outcome
full_rebuild_user e source user now joplin_user_id fuel db state =
    map_option (rebuilt_or_recorded user now (record { rows = db; index_state = state }))
      (full_rebuild_user_in_transaction e source user now joplin_user_id fuel db state)
