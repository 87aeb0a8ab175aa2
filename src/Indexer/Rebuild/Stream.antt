-- ===== src/Indexer/Rebuild/Stream.antt =====
-- `full_rebuild_user_in_transaction` of crates/joplin-mcpd/src/indexer/rebuild.rs: the derived rows are
-- deleted, and those of the batches of the source are inserted as they come.
use joplin_mcp_rust.Prelude.{
  ℕ, suc, zero, ◌+◌, List, Option, none, some, if◌then◌else◌, length, map_option, Result, ok, err,
  ◌>>=◌, ltb, last?, is_empty,
}
use joplin_mcp_rust.Prelude.Int.{ℤ}
use joplin_mcp_rust.Time.{DateTime}
use joplin_mcp_rust.Indexer.State.{Table, greatest, mark_building, mark_rebuild_ready}
use joplin_mcp_rust.Indexer.Item.{Str, JoplinItem}
use joplin_mcp_rust.Indexer.Parser.{Engine}
use joplin_mcp_rust.Indexer.Source.{JoplinItemCursor, cursor_of, joplin_item_batch_size}
use joplin_mcp_rust.Indexer.Refresh.{JoplinSource, Failure, failing}
use joplin_mcp_rust.Indexer.Tables.{Index}
use joplin_mcp_rust.Indexer.Rebuild.{RebuildRows, rebuild_rows_for_items}
use joplin_mcp_rust.Indexer.Rebuild.Insert.{
  insert_rebuild_rows, delete_derived_rows, prune_dangling_note_tags_in_db, count_note_tags,
}

pub record RebuildStats : Type 0 where
  pub indexed_notes : ℕ
  pub indexed_notebooks : ℕ
  pub indexed_tags : ℕ
  pub indexed_note_tags : ℕ
  pub indexed_resources : ℕ
  pub indexed_deleted_items : ℕ
  pub skipped_encrypted : ℕ
  pub skipped_malformed : ℕ
  pub skipped_wrong_owner : ℕ
  pub last_seen_joplin_updated_time : Option ℤ

abbrev pub no_stats : RebuildStats
no_stats = record {
  indexed_notes = 0;
  indexed_notebooks = 0;
  indexed_tags = 0;
  indexed_note_tags = 0;
  indexed_resources = 0;
  indexed_deleted_items = 0;
  skipped_encrypted = 0;
  skipped_malformed = 0;
  skipped_wrong_owner = 0;
  last_seen_joplin_updated_time = none;
}

unfoldable pub add_rows : RebuildRows → RebuildStats → RebuildStats
add_rows rows stats = record {
  indexed_notes = stats.indexed_notes + length rows.notes;
  indexed_notebooks = stats.indexed_notebooks + length rows.notebooks;
  indexed_tags = stats.indexed_tags + length rows.tags;
  indexed_note_tags = stats.indexed_note_tags + length rows.note_tags;
  indexed_resources = stats.indexed_resources + length rows.resources;
  indexed_deleted_items = stats.indexed_deleted_items + length rows.deleted_items;
  skipped_encrypted = stats.skipped_encrypted + rows.skipped_encrypted;
  skipped_malformed = stats.skipped_malformed + rows.skipped_malformed;
  skipped_wrong_owner = stats.skipped_wrong_owner + rows.skipped_wrong_owner;
  last_seen_joplin_updated_time =
      greatest rows.last_seen_joplin_updated_time stats.last_seen_joplin_updated_time;
}

-- What the transaction has written, with the statistics.
pub record Rebuilt : Type 0 where
  pub stats : RebuildStats
  pub tables : Index

-- At an insert that fails, the rows of the batches before it are written.
abbrev pub insert_batch :
    Engine → ℕ → DateTime → Str → List JoplinItem → Rebuilt → Result Failure Rebuilt
insert_batch e user now joplin_user_id items state = do
  let rows = rebuild_rows_for_items e joplin_user_id items
  tables ← failing state.tables (insert_rebuild_rows user now rows state.tables)
  ok (record { stats = add_rows rows state.stats; tables = tables })

-- The loop; none when the fuel runs out.
unfoldable pub rebuild_batches :
    Engine
    → JoplinSource
    → ℕ
    → DateTime
    → Str
    → ℕ
    → Option JoplinItemCursor
    → Rebuilt
    → Option (Result Failure Rebuilt)
rebuild_batches e source user now joplin_user_id zero after state = none
rebuild_batches e source user now joplin_user_id (suc fuel) after state =
    elim (source.changed_items_batch joplin_user_id none after joplin_item_batch_size) [
      | err error ↦ some (
          err
            (record { error = "load Joplin item batch for full rebuild"; written = state.tables }))
      | ok items ↦
          if is_empty items
          then some (ok state)
          else elim (insert_batch e user now joplin_user_id items state) [
            | err error ↦ some (err error)
            | ok next ↦
                if ltb (length items) joplin_item_batch_size
                then some (ok next)
                else rebuild_batches e source user now joplin_user_id fuel
                    (map_option cursor_of (last? items)) next
          ]
    ]

-- The tables behind the transaction, with the statistics that it answers.
pub record Committed : Type 0 where
  pub outcome : RebuildStats
  pub rows : Index
  pub index_state : Table

abbrev pub finish_rebuild : ℕ → DateTime → Table → Rebuilt → Committed
finish_rebuild user now state done =
    let pruned = prune_dangling_note_tags_in_db user done.tables in
    record {
      outcome = record done.stats { indexed_note_tags = count_note_tags user pruned };
      rows = pruned;
      index_state = mark_rebuild_ready user done.stats.last_seen_joplin_updated_time now state;
    }

unfoldable pub full_rebuild_user_in_transaction :
    Engine
    → JoplinSource
    → ℕ
    → DateTime
    → Str
    → ℕ
    → Index
    → Table
    → Option (Result Failure Committed)
full_rebuild_user_in_transaction e source user now joplin_user_id fuel db state =
    map_option
      (λ result.
        result >>= λ done. ok (finish_rebuild user now (mark_building user now state) done))
      (rebuild_batches e source user now joplin_user_id fuel none
        (record { stats = no_stats; tables = delete_derived_rows user db }))
