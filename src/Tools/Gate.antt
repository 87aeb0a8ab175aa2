-- ===== src/Tools/Gate.antt =====
-- The gate of the tools on the index's state, of crates/joplin-mcpd/src/mcp/tools.rs:
-- `IndexStateSnapshot`, `gate_index_state`, `tool_gate_should_request_index_wake_up` and
-- `ready_index_metadata`, over the table of the indexer. A failure of the database is left out.
pub mod Laws
use joplin_mcp_rust.Prelude.{
  ℕ, Bool, true, false, Option, none, some, ok, err, ◌>>=◌, or_else, if◌then◌else◌,
}
use joplin_mcp_rust.Prelude.Int.{pos, leb_ℤ}
use joplin_mcp_rust.Time.{DateTime, since, num_seconds}
use joplin_mcp_rust.Tools.Error.{
  ToolResult, IndexStatus, ready, stale, rebuilding, error, empty, missing, index_not_ready,
  default_retry_after_seconds, from_db,
}
use joplin_mcp_rust.Indexer.State.{StateRow, Table, request_index_refresh_now}

pub record IndexStateSnapshot : Type 0 where
  pub status : IndexStatus
  pub last_full_rebuild_at : Option DateTime
  pub last_incremental_at : Option DateTime
  pub last_checked_at : Option DateTime
  pub updated_at : Option DateTime

pub record IndexMetadata : Type 0 where
  pub index_status : IndexStatus
  pub last_indexed_at : Option DateTime
  pub last_checked_at : Option DateTime

abbrev pub state_of : StateRow → IndexStatus → IndexStateSnapshot
state_of row status = record {
  status = status;
  last_full_rebuild_at = row.last_full_rebuild_at;
  last_incremental_at = row.last_incremental_at;
  last_checked_at = row.last_checked_at;
  updated_at = some row.updated_at;
}

-- `IndexStateRow::snapshot`; the column `updated_at` is NOT NULL.
unfoldable pub snapshot : StateRow → ToolResult IndexStateSnapshot
unfolding from_db
snapshot row = do status ← from_db row.status; ok (state_of row status)

abbrev serve : IndexStateSnapshot → IndexMetadata
serve state = record {
  index_status = state.status;
  last_indexed_at =
      or_else (or_else state.last_incremental_at state.last_full_rebuild_at) state.updated_at;
  last_checked_at = state.last_checked_at;
}

unfoldable pub gate_index_state : Option IndexStateSnapshot → ToolResult IndexMetadata
gate_index_state none = err (index_not_ready missing)
gate_index_state (some state) = elim state.status [
  | ready ↦ ok (serve state)
  | stale ↦ ok (serve state)
  | rebuilding ↦ err (index_not_ready rebuilding)
  | error ↦ err (index_not_ready error)
  | empty ↦ err (index_not_ready empty)
  | missing ↦ err (index_not_ready missing)
]

abbrev checked_long_ago : Option DateTime → DateTime → Bool
checked_long_ago none now = true
checked_long_ago (some checked_at) now =
    leb_ℤ (pos default_retry_after_seconds) (num_seconds (since now checked_at))

unfoldable pub tool_gate_should_request_index_wake_up : Option IndexStateSnapshot → DateTime → Bool
unfolding num_seconds since
tool_gate_should_request_index_wake_up none now = true
tool_gate_should_request_index_wake_up (some state) now = elim state.status [
  | error ↦ true
  | empty ↦ true
  | stale ↦ checked_long_ago state.last_checked_at now
  | ready ↦ false
  | rebuilding ↦ false
  | missing ↦ false
]

-- `.map(IndexStateRow::snapshot).transpose()`
abbrev transpose_snapshot : Option StateRow → ToolResult (Option IndexStateSnapshot)
transpose_snapshot none = ok none
transpose_snapshot (some row) = do state ← snapshot row; ok (some state)

abbrev pub after_wake_up :
    ToolResult (Option IndexStateSnapshot) → ℕ → DateTime → Table → ToolResult IndexMetadata × Table
after_wake_up (err e) user now table = (err e, table)
after_wake_up (ok state) user now table = (
  gate_index_state state,
  if tool_gate_should_request_index_wake_up state now
      then request_index_refresh_now user now table
      else table,
)

-- The answer and the table behind it.
unfoldable pub ready_index_metadata : ℕ → DateTime → Table → ToolResult IndexMetadata × Table
unfolding gate_index_state tool_gate_should_request_index_wake_up snapshot request_index_refresh_now
ready_index_metadata user now table = after_wake_up (transpose_snapshot (table user)) user now table
