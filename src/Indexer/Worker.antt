-- ===== src/Indexer/Worker.antt =====
-- `refresh_users` of crates/joplin-mcpd/src/indexer/worker.rs: the cycle of the worker over the users that
-- are due. The tasks of a cycle run side by side, each in its own transaction on the rows of its user: here
-- they stand in the order in which they finish.
pub mod Laws
pub mod Returns
use joplin_mcp_rust.Prelude.{
  ℕ, suc, ◌+◌, Bool, true, false, List, [], ◌∷◌, Option, none, some, Result, ok, err, if◌then◌else◌,
  String, length, map, same, or_else,
}
use joplin_mcp_rust.Prelude.Int.{ℤ}
use joplin_mcp_rust.Time.{DateTime}
use joplin_mcp_rust.Indexer.State.{StateRow, Table, IndexConfig, refresh_needed, mark_index_checked}
use joplin_mcp_rust.Indexer.Item.{Str}
use joplin_mcp_rust.Indexer.Parser.{Engine}
use joplin_mcp_rust.Indexer.Tables.{Index}
use joplin_mcp_rust.Indexer.Refresh.{JoplinSource, RefreshUser}
use joplin_mcp_rust.Indexer.Rebuild.User.{
  RefreshOutcome, skipped_lock, from_full_rebuild, refreshed, Outcome, incremental_refresh_user,
}

pub record JoplinSourceWatermark : Type 0 where
  pub owner_id : Str
  pub source_watermark : ℤ

-- `watermarks_by_owner` and the lookup: of two entries for an owner the later one counts.
unfoldable pub watermarks_by_owner : List JoplinSourceWatermark → Str → Option ℤ
watermarks_by_owner [] owner = none
watermarks_by_owner (mark ∷ marks) owner =
    or_else (watermarks_by_owner marks owner)
      (if same mark.owner_id owner then some mark.source_watermark else none)

pub record WorkerCycleStats : Type 0 where
  pub checked : ℕ
  pub refreshed_users : ℕ
  pub skipped_current : ℕ
  pub skipped_locks : ℕ
  pub failed : ℕ
  pub skipped_encrypted : ℕ
  pub skipped_malformed : ℕ
  pub skipped_wrong_owner : ℕ
  pub full_rebuild_indexed_items : ℕ
  pub full_rebuild_deleted_items : ℕ

unfoldable pub started : ℕ → WorkerCycleStats
started checked = record {
  checked = checked;
  refreshed_users = 0;
  skipped_current = 0;
  skipped_locks = 0;
  failed = 0;
  skipped_encrypted = 0;
  skipped_malformed = 0;
  skipped_wrong_owner = 0;
  full_rebuild_indexed_items = 0;
  full_rebuild_deleted_items = 0;
}

-- `WorkerUserOutcome`; an outcome of a refresh says itself whether the lock was acquired.
pub data WorkerUserOutcome : Type 0 where
  refreshed_or_locked : RefreshOutcome → WorkerUserOutcome
  is_current : WorkerUserOutcome

-- The counters of a refresh, with `from_full_rebuild` for one that was a rebuild.
abbrev add_refresh : RefreshOutcome → WorkerCycleStats → WorkerCycleStats
add_refresh skipped_lock stats = record stats { skipped_locks = stats.skipped_locks + 1 }
add_refresh (from_full_rebuild rebuild) stats = record stats {
  refreshed_users = stats.refreshed_users + 1;
  skipped_encrypted = stats.skipped_encrypted + rebuild.skipped_encrypted;
  skipped_malformed = stats.skipped_malformed + rebuild.skipped_malformed;
  skipped_wrong_owner = stats.skipped_wrong_owner + rebuild.skipped_wrong_owner;
  full_rebuild_indexed_items =
      stats.full_rebuild_indexed_items
      + (rebuild.indexed_notes + rebuild.indexed_notebooks + rebuild.indexed_tags
          + rebuild.indexed_note_tags + rebuild.indexed_resources);
  full_rebuild_deleted_items = stats.full_rebuild_deleted_items + rebuild.indexed_deleted_items;
}
add_refresh (refreshed totals) stats = record stats {
  refreshed_users = stats.refreshed_users + 1;
  skipped_encrypted = stats.skipped_encrypted + totals.skipped_encrypted;
  skipped_malformed = stats.skipped_malformed + totals.skipped_malformed;
  skipped_wrong_owner = stats.skipped_wrong_owner + totals.skipped_wrong_owner;
}

unfoldable pub add_outcome : WorkerUserOutcome → WorkerCycleStats → WorkerCycleStats
add_outcome (refreshed_or_locked outcome) stats = add_refresh outcome stats
add_outcome is_current stats = record stats { skipped_current = stats.skipped_current + 1 }

-- The match on the result of a task that was joined.
abbrev pub add_result : Result String WorkerUserOutcome → WorkerCycleStats → WorkerCycleStats
add_result (ok outcome) stats = add_outcome outcome stats
add_result (err error) stats = record stats { failed = stats.failed + 1 }

-- A user that is due, with the row of the state that `due_refresh_users` read; when the task of the user
-- runs, and whether it acquires the lock.
pub record Task : Type 0 where
  pub user : RefreshUser
  pub state_read : Option StateRow
  pub now : DateTime
  pub lock_acquired : Bool

pub record TaskDone : Type 0 where
  pub result : Result String WorkerUserOutcome
  pub rows : Index
  pub index_state : Table

abbrev to_result : Result String RefreshOutcome → Result String WorkerUserOutcome
to_result (ok outcome) = ok (refreshed_or_locked outcome)
to_result (err error) = err error

abbrev pub of_refresh : Option Outcome → Option TaskDone
of_refresh none = none
of_refresh (some done) =
    some
      (record { result = to_result done.answer; rows = done.rows; index_state = done.index_state })

-- The body of a task; none when the fuel runs out.
unfoldable pub run_task :
    Engine → JoplinSource → IndexConfig → ℕ → Option ℤ → Task → Index → Table → Option TaskDone
run_task e source config fuel source_watermark task db state =
    if refresh_needed task.state_read source_watermark config task.now
    then of_refresh (
        incremental_refresh_user e source task.user config task.now fuel task.lock_acquired db
          state)
    else some (record {
      result = ok is_current;
      rows = db;
      index_state = mark_index_checked task.user.mcp_user_id source_watermark task.now state;
    })

-- A cycle that has ended.
pub record Cycle : Type 0 where
  pub stats : WorkerCycleStats
  pub rows : Index
  pub index_state : Table

-- The loop over the tasks.
unfoldable pub join_tasks :
    Engine → JoplinSource → IndexConfig → ℕ → (Str → Option ℤ) → List Task → Cycle → Option Cycle
join_tasks e source config fuel watermarks [] cycle = some cycle
join_tasks e source config fuel watermarks (task ∷ tasks) cycle =
    elim (run_task e source config fuel (watermarks task.user.joplin_user_id) task cycle.rows
      cycle.index_state) [
        | none ↦ none
        | some done ↦ join_tasks e source config fuel watermarks tasks (record {
          stats = add_result done.result cycle.stats;
          rows = done.rows;
          index_state = done.index_state;
        })
      ]

-- `source_watermarks` is the answer of the source for the users of the cycle.
unfoldable pub refresh_users :
    Engine
    → JoplinSource
    → IndexConfig
    → ℕ
    → Result String (List JoplinSourceWatermark)
    → List Task
    → Index
    → Table
    → Option Cycle
refresh_users e source config fuel source_watermarks [] db state =
    some (record { stats = started 0; rows = db; index_state = state })
refresh_users e source config fuel (err error) (task ∷ tasks) db state =
    let stats = started (length (task ∷ tasks)) in
    some (record {
      stats = record stats { failed = stats.failed + stats.checked };
      rows = db;
      index_state = state;
    })
refresh_users e source config fuel (ok watermarks) (task ∷ tasks) db state =
    join_tasks e source config fuel (watermarks_by_owner watermarks) (task ∷ tasks)
      (record { stats = started (length (task ∷ tasks)); rows = db; index_state = state })
