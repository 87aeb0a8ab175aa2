-- ===== src/Indexer/State.antt =====
-- The table `joplin_mcp.index_state` and the statements that write it, of
-- crates/joplin-mcpd/src/indexer/refresh.rs and rebuild.rs, with the tests that decide on a refresh.
-- A table gives each user's row, if there is one; `now` is the statement's `now()`.
pub mod Laws
pub mod Refresh
pub mod Separate
pub mod Steps
use joplin_mcp_rust.Prelude.{
  ℕ, ◌+◌, ◌*◌, ◌-◌, ◌^◌, Bool, true, false, ◌||◌, String, Option, none, some, ltb, leb, ◌==◌,
  if◌then◌else◌, str_eq, not, ◌&&◌, is_none, is_some_and, min,
}
use joplin_mcp_rust.Prelude.Int.{ℤ, pos, negsuc, leb_ℤ, ltb_ℤ, pos_part, ◌-ℤ◌}
use joplin_mcp_rust.Time.{DateTime, since, num_seconds, hours, seconds}

-- `IndexStatus` of rebuild.rs, and the text that a row holds for it.
pub data IndexStatus : Type 0 where
  empty building ready failed stale : IndexStatus

abbrev pub as_str : IndexStatus → String
as_str empty = "empty"
as_str building = "building"
as_str ready = "ready"
as_str failed = "failed"
as_str stale = "stale"

pub record StateRow : Type 0 where
  pub status : String
  pub last_full_rebuild_at : Option DateTime
  pub last_incremental_at : Option DateTime
  pub last_checked_at : Option DateTime
  pub last_reconciled_at : Option DateTime
  pub last_seen_joplin_updated_time : Option ℤ
  pub last_error : Option String
  pub updated_at : DateTime

abbrev pub Table : Type 0
Table = ℕ → Option StateRow

abbrev pub put : ℕ → StateRow → Table → Table
put user row table = λ u. if u == user then some row else table u

-- A row that an INSERT makes: the columns that it does not name are NULL.
abbrev pub fresh : String → DateTime → StateRow
fresh status now = record {
  status = status;
  last_full_rebuild_at = none;
  last_incremental_at = none;
  last_checked_at = none;
  last_reconciled_at = none;
  last_seen_joplin_updated_time = none;
  last_error = none;
  updated_at = now;
}

-- SQL's GREATEST, which passes over NULL; the COALESCE around it adds nothing.
abbrev pub greatest : Option ℤ → Option ℤ → Option ℤ
greatest none o = o
greatest (some a) none = some a
greatest (some a) (some b) = some (if leb_ℤ a b then b else a)

abbrev pub is_servable_status : String → Bool
is_servable_status status = str_eq status "ready" || str_eq status "stale"

-- REQUEST_INDEX_REFRESH_NOW_SQL
unfoldable pub request_index_refresh_now : ℕ → DateTime → Table → Table
request_index_refresh_now user now table = elim (table user) [
  | none ↦ put user (fresh (as_str empty) now) table
  | some row ↦
      if str_eq row.status (as_str building)
      then table
      else put user (record row { last_checked_at = none; updated_at = now }) table
]

-- The first statement of `prepare_derived_rows_for_rebuild`.
unfoldable pub mark_building : ℕ → DateTime → Table → Table
mark_building user now table = elim (table user) [
  | none ↦ put user (fresh (as_str building) now) table
  | some row ↦ put user (record row { status = as_str building; updated_at = now }) table
]

unfoldable pub mark_rebuild_ready : ℕ → Option ℤ → DateTime → Table → Table
mark_rebuild_ready user last_seen now table = elim (table user) [
  | none ↦ table
  | some row ↦
      put user
        (record {
          status = as_str ready;
          last_full_rebuild_at = some now;
          last_incremental_at = some now;
          last_checked_at = some now;
          last_reconciled_at = some now;
          last_seen_joplin_updated_time = last_seen;
          last_error = none;
          updated_at = now;
        })
        table
]

unfoldable pub requires_full_rebuild : ℕ → ℕ → Bool
requires_full_rebuild gap_seconds lookback_cap_seconds = ltb lookback_cap_seconds gap_seconds

-- The tests of `full_rebuild_due` and `hard_delete_reconciliation_due`, which read alike.
abbrev pub due_after : Option DateTime → ℕ → DateTime → Bool
due_after none interval_hours now = true
due_after (some last) interval_hours now = leb_ℤ (hours interval_hours) (since now last)

unfoldable pub full_rebuild_due : Option DateTime → ℕ → DateTime → Bool
unfolding since
full_rebuild_due last_full_rebuild_at interval_hours now =
    due_after last_full_rebuild_at interval_hours now

unfoldable pub hard_delete_reconciliation_due : Option DateTime → ℕ → DateTime → Bool
unfolding since
hard_delete_reconciliation_due last_reconciled_at interval_hours now =
    due_after last_reconciled_at interval_hours now

abbrev pub u64_max : ℕ
u64_max = 2 ^ 64 - 1

-- Negative gaps count as 0, and no last refresh as the largest gap.
unfoldable pub refresh_gap_seconds : Option DateTime → DateTime → ℕ
unfolding since num_seconds
refresh_gap_seconds none now = u64_max
refresh_gap_seconds (some last) now = pos_part (num_seconds (since now last))

unfoldable pub is_stale : Option DateTime → ℕ → DateTime → Bool
unfolding refresh_gap_seconds
is_stale last_incremental_at refresh_interval_seconds now =
    leb (min (refresh_interval_seconds * 2) u64_max) (refresh_gap_seconds last_incremental_at now)

unfoldable pub mark_stale_if_needed : ℕ → Option DateTime → ℕ → DateTime → Table → Table
unfolding is_stale
mark_stale_if_needed user last_incremental_at refresh_interval_seconds now table =
    if not (is_stale last_incremental_at refresh_interval_seconds now)
    then table
    else elim (table user) [
      | none ↦ table
      | some row ↦
          if str_eq row.status (as_str ready)
          then put user (record row { status = as_str stale; updated_at = now }) table
          else table
    ]

abbrev pub when : Bool → DateTime → Option DateTime
when true now = some now
when false now = none

unfoldable pub mark_incremental_ready : ℕ → Option ℤ → Bool → Bool → DateTime → Table → Table
mark_incremental_ready user last_seen applied_changes ran_reconciliation now table =
    elim (table user) [
      | none ↦
          put user
            (record {
              status = as_str ready;
              last_full_rebuild_at = none;
              last_incremental_at = when applied_changes now;
              last_checked_at = some now;
              last_reconciled_at = when ran_reconciliation now;
              last_seen_joplin_updated_time = last_seen;
              last_error = none;
              updated_at = now;
            })
            table
      | some row ↦
          put user
            (record row {
              status = as_str ready;
              last_checked_at = some now;
              last_incremental_at = if applied_changes then some now else row.last_incremental_at;
              last_seen_joplin_updated_time = greatest row.last_seen_joplin_updated_time last_seen;
              last_reconciled_at = if ran_reconciliation then some now else row.last_reconciled_at;
              last_error = none;
              updated_at = now;
            })
            table
    ]

unfoldable pub mark_index_checked : ℕ → Option ℤ → DateTime → Table → Table
mark_index_checked user source_watermark now table = elim (table user) [
  | none ↦
      put user
        (record {
          status = as_str ready;
          last_full_rebuild_at = none;
          last_incremental_at = none;
          last_checked_at = some now;
          last_reconciled_at = none;
          last_seen_joplin_updated_time = source_watermark;
          last_error = none;
          updated_at = now;
        })
        table
  | some row ↦
      put user
        (record row {
          status = as_str ready;
          last_checked_at = some now;
          last_seen_joplin_updated_time =
              greatest row.last_seen_joplin_updated_time source_watermark;
          last_error = none;
          updated_at = now;
        })
        table
]

unfoldable pub record_incremental_failure : ℕ → String → DateTime → Table → Table
record_incremental_failure user error now table = elim (table user) [
  | none ↦ put user (record (fresh (as_str failed) now) { last_error = some error }) table
  | some row ↦
      put user
        (record row {
          status = if is_servable_status row.status then as_str stale else as_str failed;
          last_error = some error;
          updated_at = now;
        })
        table
]

unfoldable pub record_rebuild_failure : ℕ → Bool → String → DateTime → Table → Table
record_rebuild_failure user true error now table = elim (table user) [
  | none ↦ table
  | some row ↦ put user (record row { last_error = some error; updated_at = now }) table
]
record_rebuild_failure user false error now table = elim (table user) [
  | none ↦ put user (record (fresh (as_str failed) now) { last_error = some error }) table
  | some row ↦
      put user (record row { status = as_str failed; last_error = some error; updated_at = now })
        table
]

-- `IndexConfig` of config.rs, the fields that the indexer reads.
pub record IndexConfig : Type 0 where
  pub refresh_interval_seconds : ℕ
  pub full_rebuild_interval_hours : ℕ
  pub incremental_lookback_max_seconds : ℕ
  pub hard_delete_reconcile_interval_hours : ℕ

-- The condition of `due_refresh_users` on the user's row, for a user who may sign in. `interval` of
-- SQL is compared with `<=`.
abbrev elapsed : Option DateTime → ℤ → DateTime → Bool
elapsed none interval now = true
elapsed (some last) interval now = leb_ℤ interval (since now last)

unfoldable pub is_due : Option StateRow → IndexConfig → DateTime → Bool
unfolding since
is_due none config now = true
is_due (some row) config now =
    str_eq row.status "failed"
    || str_eq row.status "empty"
    || str_eq row.status "building"
    || elapsed row.last_checked_at (seconds config.refresh_interval_seconds) now
    || elapsed row.last_full_rebuild_at (hours config.full_rebuild_interval_hours) now

-- The comparison of the watermarks in `refresh_needed`.
abbrev pub behind : Option ℤ → Option ℤ → Bool
behind (some source_watermark) (some last_seen) = leb_ℤ last_seen source_watermark
behind (some source_watermark) none = true
behind none last_seen = false

-- `refresh_needed`, on the row of the user as `due_refresh_users` read it.
unfoldable pub refresh_needed : Option StateRow → Option ℤ → IndexConfig → DateTime → Bool
unfolding requires_full_rebuild full_rebuild_due hard_delete_reconciliation_due refresh_gap_seconds
refresh_needed none source_watermark config now = true
refresh_needed (some row) source_watermark config now =
    if not (is_servable_status row.status)
    then true
    else if requires_full_rebuild (refresh_gap_seconds row.last_incremental_at now)
          config.incremental_lookback_max_seconds
        || full_rebuild_due row.last_full_rebuild_at config.full_rebuild_interval_hours now
    then true
    else if hard_delete_reconciliation_due row.last_reconciled_at
        config.hard_delete_reconcile_interval_hours now
    then true
    else behind source_watermark row.last_seen_joplin_updated_time
