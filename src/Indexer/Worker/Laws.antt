-- ===== src/Indexer/Worker/Laws.antt =====
-- A cycle of the worker counts every user once.
use joplin_mcp_rust.Prelude.{
  ℕ, suc, ◌+◌, ◌≡◌, refl, ◌∙◌, List, [], ◌∷◌, Option, none, some, Result, ok, err, String, length,
  arith, ◌≢◌, Option-cases, inl, inr,
}
use joplin_mcp_rust.Prelude.Int.{ℤ}
use joplin_mcp_rust.Indexer.State.{Table, IndexConfig}
use joplin_mcp_rust.Indexer.Item.{Str}
use joplin_mcp_rust.Indexer.Parser.{Engine}
use joplin_mcp_rust.Indexer.Tables.{Index}
use joplin_mcp_rust.Indexer.Refresh.{JoplinSource}
use joplin_mcp_rust.Indexer.Rebuild.User.{skipped_lock, from_full_rebuild, refreshed}
use joplin_mcp_rust.Indexer.Worker.{
  JoplinSourceWatermark, WorkerCycleStats, started, WorkerUserOutcome, refreshed_or_locked,
  is_current, add_outcome, add_result, Task, run_task, Cycle, join_tasks, refresh_users,
  watermarks_by_owner,
}

-- The users that the counters tell of.
abbrev pub told : WorkerCycleStats → ℕ
told stats = stats.refreshed_users + stats.skipped_current + stats.skipped_locks + stats.failed

told-add_result :
    (result : Result String WorkerUserOutcome) (stats : WorkerCycleStats)
    → (told (add_result result stats) ≡ suc (told stats))
      × ((add_result result stats).checked ≡ stats.checked)
unfolding add_outcome
told-add_result (err error) stats = (omega arith, refl)
told-add_result (ok is_current) stats = (omega arith, refl)
told-add_result (ok (refreshed_or_locked skipped_lock)) stats = (omega arith, refl)
told-add_result (ok (refreshed_or_locked (from_full_rebuild rebuild))) stats = (omega arith, refl)
told-add_result (ok (refreshed_or_locked (refreshed totals))) stats = (omega arith, refl)

-- The fuel is enough for the refresh of every user.
abbrev pub TasksReturn : Engine → JoplinSource → IndexConfig → ℕ → Type 0
TasksReturn e source config fuel =
    (mark : Option ℤ) (task : Task) (db : Index) (state : Table)
    → run_task e source config fuel mark task db state ≢ none

told-join_tasks :
    (e : Engine) (source : JoplinSource) (config : IndexConfig) (fuel : ℕ) (marks : Str → Option ℤ)
    (tasks : List Task) (cycle : Cycle)
    → TasksReturn e source config fuel
    → (ended : Cycle) × (join_tasks e source config fuel marks tasks cycle ≡ some ended)
      × (ended.stats.checked ≡ cycle.stats.checked)
      × (told ended.stats ≡ told cycle.stats + length tasks)
unfolding join_tasks
told-join_tasks e source config fuel marks [] cycle return = (cycle, refl, refl, omega arith)
told-join_tasks e source config fuel marks (task ∷ tasks) cycle return =
    let mark = marks task.user.joplin_user_id in
    elim (Option-cases (run_task e source config fuel mark task cycle.rows cycle.index_state)) [
      | inl stops ↦ absurd (return mark task cycle.rows cycle.index_state stops)
      | inr (done, ends) ↦
          let (counts, checks) = told-add_result done.result cycle.stats in
          let next : Cycle = record {
            stats = add_result done.result cycle.stats;
            rows = done.rows;
            index_state = done.index_state;
          } in
          let (ended, runs, same_checked, same_told) =
            told-join_tasks e source config fuel marks tasks next return in
          (ended, rw (join_tasks, ends) runs, same_checked ∙ checks, same_told ∙ omega arith)
    ]

-- A cycle whose tasks return ends, and counts every user once.
pub told-refresh_users :
    (e : Engine) (source : JoplinSource) (config : IndexConfig) (fuel : ℕ)
    (source_watermarks : Result String (List JoplinSourceWatermark)) (tasks : List Task)
    (db : Index) (state : Table)
    → TasksReturn e source config fuel
    → (ended : Cycle) × (refresh_users e source config fuel source_watermarks tasks db state
        ≡ some ended)
      × (ended.stats.checked ≡ length tasks)
      × (told ended.stats ≡ length tasks)
unfolding refresh_users started
told-refresh_users e source config fuel marks [] db state return = (_, refl, refl, refl)
told-refresh_users e source config fuel (err error) (task ∷ tasks) db state return =
    (_, refl, refl, omega arith)
told-refresh_users e source config fuel (ok marks) (task ∷ tasks) db state return =
    let (ended, runs, checks, counts) =
      told-join_tasks e source config fuel (watermarks_by_owner marks) (task ∷ tasks)
        (record { stats = started (length (task ∷ tasks)); rows = db; index_state = state })
        return in
    (ended, runs, checks, counts ∙ omega arith)
