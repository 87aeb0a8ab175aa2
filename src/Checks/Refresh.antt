-- ===== src/Checks/Refresh.antt =====
-- The refresh and the rebuild at concrete inputs: a source of two notes, and one that is down.
use joplin_mcp_rust.Prelude.{
  text_ltb, same, ◌≡◌, refl, true, false, List, [], ◌∷◌, none, some, ok, err, chars, concat, length,
  All, Any,
}
use joplin_mcp_rust.Prelude.Int.{ℤ, pos}
use joplin_mcp_rust.Indexer.Item.{Str, JoplinItem}
use joplin_mcp_rust.Indexer.Parser.{Engine}
use joplin_mcp_rust.Indexer.State.{
  Table, IndexConfig, record_incremental_failure, requires_full_rebuild, refresh_gap_seconds,
}
use joplin_mcp_rust.Indexer.Rebuild.{rebuild_rows_for_items}
use joplin_mcp_rust.Indexer.Rebuild.ByType.{by_type}
use joplin_mcp_rust.Indexer.Rebuild.Agrees.{rebuild_rows_for_items_same}
use joplin_mcp_rust.Indexer.Rebuild.Stream.{full_rebuild_user_in_transaction, rebuild_batches}
use joplin_mcp_rust.Indexer.Rebuild.User.{Outcome, incremental_refresh_user}
use joplin_mcp_rust.Indexer.Rebuild.User.Laws.{IsUndone, incremental_refresh_user-IsUndone}
use joplin_mcp_rust.Indexer.Rows.{build_incremental_rows}
use joplin_mcp_rust.Indexer.Rows.Laws.{accounted, Owned, has_ends, build_incremental_rows_sound}
use joplin_mcp_rust.Indexer.Source.{RawJoplinItem, changed_items_batch, or_empty}
use joplin_mcp_rust.Indexer.Source.Laws.{text_ltb-IsOrder, DistinctIds, changed_in_order}
use joplin_mcp_rust.Indexer.Refresh.{JoplinSource, RefreshUser, Progress, no_totals, apply_batches}
use joplin_mcp_rust.Indexer.Refresh.Laws.{apply_all, apply_batches_complete}
use joplin_mcp_rust.Checks.Tables.{tagged_note}

-- An engine for items whose text has no footer.
abbrev pub plain_engine : Engine
plain_engine = record {
  id_re = λ line. false;
  footer_line_re = λ line. true;
  resource_captures = λ body. [];
  json_object = λ raw. some none;
  from_utf8 = λ bytes. some bytes;
}

abbrev joplin_user : Str
joplin_user = chars "u1"

abbrev raw_note : Str → ℤ → RawJoplinItem
raw_note id time = record {
  id = id;
  owner_id = joplin_user;
  content = chars "Eggs";
  name = chars "List";
  mime_type = [];
  updated_time = time;
  created_time = pos 1;
  jop_id = id;
  jop_parent_id = [];
  jop_type = 1;
  jop_encryption_applied = 0;
}

abbrev pub two_items : List RawJoplinItem
two_items = raw_note (chars "b") (pos 20) ∷ raw_note (chars "a") (pos 10) ∷ []

abbrev pub two_items-DistinctIds : DistinctIds two_items
unfolding same
two_items-DistinctIds = ((refl, tt), (tt, tt))

build_incremental_rows_sound_example :
    let items = changed_in_order text_ltb two_items joplin_user none in
    let rows = build_incremental_rows plain_engine joplin_user items in
    (accounted rows ≡ length items)
    × All (λ row. Any (Owned joplin_user row) items × (has_ends row ≡ true)) rows.active
build_incremental_rows_sound_example =
    build_incremental_rows_sound plain_engine joplin_user
      (changed_in_order text_ltb two_items joplin_user none)

-- A source over the two items that answers every batch.
abbrev pub two_items_source : JoplinSource
two_items_source = record {
  changed_items_batch = λ user_id since after limit.
      ok (or_empty (changed_items_batch text_ltb two_items user_id since after limit));
  active_item_refs = λ user_id. ok none;
  active_note_tag_refs = λ user_id. ok none;
}

abbrev pub refreshed_user : RefreshUser
refreshed_user = record {
  mcp_user_id = 1;
  joplin_user_id = joplin_user;
  last_incremental_at = none;
  last_full_rebuild_at = none;
  last_reconciled_at = none;
  last_seen_joplin_updated_time = some (pos 5);
}

abbrev at_start : Progress
at_start = record { totals = no_totals; tables = tagged_note }

apply_batches_complete_example :
    (found : List (List JoplinItem)) × (apply_batches plain_engine two_items_source refreshed_user
        (pos 9)
        3
        none
        at_start
      ≡ some (ok (apply_all plain_engine refreshed_user (pos 9) found at_start)))
    × (concat found ≡ changed_in_order text_ltb two_items joplin_user (some (pos 5)))
apply_batches_complete_example =
    apply_batches_complete plain_engine two_items_source refreshed_user (pos 9) text_ltb two_items
      at_start text_ltb-IsOrder two_items-DistinctIds (λ after. refl)

rebuild_rows_for_items_same_example :
    let items = changed_in_order text_ltb two_items joplin_user none in
    rebuild_rows_for_items plain_engine joplin_user items
    ≡ by_type (build_incremental_rows plain_engine joplin_user items)
rebuild_rows_for_items_same_example =
    rebuild_rows_for_items_same plain_engine joplin_user
      (changed_in_order text_ltb two_items joplin_user none)

-- A source that does not answer. The rebuild has deleted the derived rows by then.
abbrev pub down_source : JoplinSource
down_source = record {
  changed_items_batch = λ user_id since after limit. err "down";
  active_item_refs = λ user_id. err "down";
  active_note_tag_refs = λ user_id. err "down";
}

abbrev pub hourly : IndexConfig
hourly = record {
  refresh_interval_seconds = 300;
  full_rebuild_interval_hours = 24;
  incremental_lookback_max_seconds = 3600;
  hard_delete_reconcile_interval_hours = 6;
}

abbrev pub not_indexed : Table
not_indexed user = none

abbrev down_outcome : Outcome
down_outcome = record {
  answer = err "load Joplin item batch for full rebuild";
  rows = tagged_note;
  index_state =
      record_incremental_failure 1 "load Joplin item batch for full rebuild" (pos 9) not_indexed;
}

incremental_refresh_user-IsUndone_example :
    IsUndone 1 tagged_note not_indexed "load Joplin item batch for full rebuild" down_outcome
unfolding incremental_refresh_user full_rebuild_user_in_transaction rebuild_batches
    requires_full_rebuild refresh_gap_seconds
incremental_refresh_user-IsUndone_example =
    incremental_refresh_user-IsUndone plain_engine down_source refreshed_user hourly (pos 9) 1 true
      tagged_note not_indexed "load Joplin item batch for full rebuild" down_outcome refl refl
