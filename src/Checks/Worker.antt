-- ===== src/Checks/Worker.antt =====
-- A cycle of the worker at a concrete input: two users are due, one of them locked by another cycle, and
-- the source reads a table of two notes.
use joplin_mcp_rust.Prelude.{
  text_ltb, ◌≡◌, refl, List, [], ◌∷◌, none, some, ok, length, true, false, suc, inl,
}
use joplin_mcp_rust.Prelude.Int.{pos}
use joplin_mcp_rust.Indexer.Source.Laws.{text_ltb-IsOrder}
use joplin_mcp_rust.Indexer.Worker.{Task, Cycle, refresh_users}
use joplin_mcp_rust.Indexer.Worker.Laws.{told}
use joplin_mcp_rust.Indexer.Worker.Returns.{Reads, refresh_users-told}
use joplin_mcp_rust.Checks.Tables.{tagged_note}
use joplin_mcp_rust.Checks.Refresh.{
  plain_engine, two_items, two_items-DistinctIds, two_items_source, hourly, refreshed_user,
  not_indexed,
}

abbrev two_items_source-Reads : Reads text_ltb two_items two_items_source
two_items_source-Reads = λ user since after. inl refl

abbrev due_task : Task
due_task = record { user = refreshed_user; state_read = none; now = pos 9; lock_acquired = true }

abbrev due_tasks : List Task
due_tasks = due_task ∷ record due_task { lock_acquired = false } ∷ []

refresh_users-told_example :
    (ended : Cycle) × (refresh_users plain_engine two_items_source hourly
        (suc (length two_items))
        (ok [])
        due_tasks
        tagged_note
        not_indexed
      ≡ some ended)
    × (told ended.stats ≡ length due_tasks)
refresh_users-told_example =
    refresh_users-told plain_engine two_items_source hourly text_ltb two_items (ok []) due_tasks
      tagged_note not_indexed text_ltb-IsOrder two_items-DistinctIds two_items_source-Reads
