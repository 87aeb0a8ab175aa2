-- ===== src/Checks/Indexer.antt =====
-- Tables of the index's state and the gate on them.
use joplin_mcp_rust.Prelude.{◌≡◌, ◌↔◌, refl, true, false, none, some, map_option, arith}
use joplin_mcp_rust.Prelude.Int.{pos}
use joplin_mcp_rust.Indexer.State.{
  StateRow, Table, IndexConfig, request_index_refresh_now, mark_building, mark_rebuild_ready,
  mark_stale_if_needed, mark_incremental_ready, mark_index_checked, record_incremental_failure,
  record_rebuild_failure, is_due, refresh_needed,
}
use joplin_mcp_rust.Indexer.State.Laws.{
  request_index_refresh_now-is_due, NoLess, watermark, watermark_grows, servable,
  status_after_failure, record_incremental_failure-servable, record_rebuild_failure-servable,
}
use joplin_mcp_rust.Indexer.State.Refresh.{IsCurrent, refresh_needed_iff}
use joplin_mcp_rust.Indexer.State.Separate.{writes_are_separate}
use joplin_mcp_rust.Indexer.State.Steps.{Reachable, start, next, started, Known, Reachable-Known}
use joplin_mcp_rust.Tools.Gate.{ready_index_metadata}
use joplin_mcp_rust.Tools.Gate.Laws.{is_ok, ready_index_metadata_iff, refused-is_due}

abbrev demo_config : IndexConfig
demo_config = record {
  refresh_interval_seconds = 60;
  full_rebuild_interval_hours = 24;
  incremental_lookback_max_seconds = 3600;
  hard_delete_reconcile_interval_hours = 6;
}

abbrev no_rows : Table
no_rows = λ user. none

-- User 1 is being rebuilt.
abbrev building_one : Table
building_one = mark_building 1 (pos 0) no_rows

abbrev building_one-Reachable : Reachable building_one
building_one-Reachable = next start (started 1 (pos 0))

abbrev ready_row : StateRow
ready_row = record {
  status = "ready";
  last_full_rebuild_at = some (pos 10);
  last_incremental_at = some (pos 10);
  last_checked_at = some (pos 10);
  last_reconciled_at = some (pos 10);
  last_seen_joplin_updated_time = some (pos 500);
  last_error = none;
  updated_at = pos 10;
}

abbrev one_ready : Table
one_ready = λ user. some ready_row

ready_index_metadata_iff_example :
    is_ok ((ready_index_metadata 1 (pos 5) building_one).0) ≡ servable (building_one 1)
ready_index_metadata_iff_example =
    ready_index_metadata_iff building_one 1 (pos 5) building_one-Reachable

refused-is_due_example :
    is_due ((ready_index_metadata 2 (pos 5) building_one).1 2) demo_config (pos 9) ≡ true
unfolding ready_index_metadata mark_building
refused-is_due_example =
    refused-is_due building_one 2 (pos 5) (pos 9) demo_config building_one-Reachable refl

Reachable-Known_example : Known (building_one 1)
Reachable-Known_example = Reachable-Known building_one-Reachable 1

request_index_refresh_now-is_due_example :
    is_due (request_index_refresh_now 1 (pos 20) one_ready 1) demo_config (pos 21) ≡ true
request_index_refresh_now-is_due_example =
    request_index_refresh_now-is_due 1 (pos 20) (pos 21) one_ready demo_config

watermark_grows_example :
    NoLess
      (watermark (one_ready 1))
      (watermark (mark_incremental_ready 1 (some (pos 400)) true false (pos 30) one_ready 1))
    × NoLess
        (some (pos 400))
        (watermark (mark_incremental_ready 1 (some (pos 400)) true false (pos 30) one_ready 1))
    × NoLess
        (watermark (one_ready 1))
        (watermark (mark_index_checked 1 (some (pos 400)) (pos 30) one_ready 1))
    × NoLess
        (some (pos 400))
        (watermark (mark_index_checked 1 (some (pos 400)) (pos 30) one_ready 1))
watermark_grows_example = watermark_grows 1 1 (some (pos 400)) true false (pos 30) one_ready

record_incremental_failure-servable_example :
    (servable (record_incremental_failure 1 "timeout" (pos 30) one_ready 1)
      ≡ servable (one_ready 1))
    × (map_option (λ r. r.status) (record_incremental_failure 1 "timeout" (pos 30) one_ready 1)
        ≡ some (status_after_failure (one_ready 1)))
    × (map_option (λ r. r.last_error) (record_incremental_failure 1 "timeout" (pos 30) one_ready 1)
        ≡ some (some "timeout"))
record_incremental_failure-servable_example =
    record_incremental_failure-servable 1 "timeout" (pos 30) one_ready

record_rebuild_failure-servable_example :
    servable (record_rebuild_failure 1 (servable (one_ready 1)) "timeout" (pos 30) one_ready 1)
    ≡ servable (one_ready 1)
record_rebuild_failure-servable_example =
    record_rebuild_failure-servable 1 "timeout" (pos 30) one_ready

writes_are_separate_example :
    (request_index_refresh_now 1 (pos 30) one_ready 2 ≡ one_ready 2)
    × ((mark_building 1 (pos 30) one_ready 2 ≡ one_ready 2)
        × (mark_rebuild_ready 1 none (pos 30) one_ready 2 ≡ one_ready 2))
    × (mark_stale_if_needed 1 none 60 (pos 30) one_ready 2 ≡ one_ready 2)
    × ((mark_incremental_ready 1 none true true (pos 30) one_ready 2 ≡ one_ready 2)
        × (mark_index_checked 1 none (pos 30) one_ready 2 ≡ one_ready 2))
    × ((record_incremental_failure 1 "e" (pos 30) one_ready 2 ≡ one_ready 2)
        × (record_rebuild_failure 1 false "e" (pos 30) one_ready 2 ≡ one_ready 2))
writes_are_separate_example =
    writes_are_separate 1 2 none true true false none 60 "e" (pos 30) one_ready (λ e. omega arith)

refresh_needed_iff_example :
    (refresh_needed (some ready_row) (some (pos 499)) demo_config (pos 40) ≡ false)
    ↔ IsCurrent ready_row (some (pos 499)) demo_config (pos 40)
refresh_needed_iff_example =
    refresh_needed_iff ready_row (some (pos 499)) demo_config (pos 40) (omega arith)
