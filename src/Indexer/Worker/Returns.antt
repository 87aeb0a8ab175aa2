-- ===== src/Indexer/Worker/Returns.antt =====
-- A cycle of the worker over Joplin's own table ends: one round of fuel more than the table has rows is
-- enough for the loops of every task.
use joplin_mcp_rust.Prelude.{
  ℕ, suc, zero, ◌≡◌, ◌⊎◌, refl, sym, ap, ◌∙◌, Bool, not, List, ◌∷◌, Option, none, some, Result, ok,
  err, String, length, map_option, last?, is_empty, ltb, Bool-cases, inl, inr,
}
use joplin_mcp_rust.Prelude.Int.{ℤ}
use joplin_mcp_rust.Time.{DateTime}
use joplin_mcp_rust.Keyset.{batches}
use joplin_mcp_rust.Indexer.State.{Table, IndexConfig, mark_stale_if_needed}
use joplin_mcp_rust.Indexer.Item.{Str, JoplinItem}
use joplin_mcp_rust.Indexer.Parser.{Engine}
use joplin_mcp_rust.Indexer.Source.{
  Collation, RawJoplinItem, JoplinItemCursor, cursor_of, joplin_item_batch_size,
  changed_items_batch, changed_batches, or_empty,
}
use joplin_mcp_rust.Indexer.Source.Laws.{IsOrder, DistinctIds, changed_batches_complete}
use joplin_mcp_rust.Indexer.Tables.{Index}
use joplin_mcp_rust.Indexer.Refresh.{
  JoplinSource, RefreshUser, Progress, apply_changed, apply_batches, apply_incremental_refresh,
}
use joplin_mcp_rust.Indexer.Rebuild.Stream.{
  Rebuilt, insert_batch, rebuild_batches, full_rebuild_user_in_transaction,
}
use joplin_mcp_rust.Indexer.Rebuild.User.{Outcome, incremental_refresh_user}
use joplin_mcp_rust.Indexer.Rebuild.User.Laws.{chosen}
use joplin_mcp_rust.Indexer.Worker.{
  JoplinSourceWatermark, Task, TaskDone, of_refresh, run_task, Cycle, refresh_users,
}
use joplin_mcp_rust.Indexer.Worker.Laws.{told, TasksReturn, told-refresh_users}

-- A call for a batch that fails, or is answered with this one.
abbrev FailsOr : List JoplinItem → Result String (List JoplinItem) → Type 0
FailsOr items answer = (answer ≡ ok items) ⊎ ((error : String) × (answer ≡ err error))

-- The source reads Joplin's table: each batch is that of the query, or the query fails.
abbrev pub Reads : Collation → List RawJoplinItem → JoplinSource → Type 0
Reads collate items source =
    (user : Str) (since : Option ℤ) (after : Option JoplinItemCursor)
    → (source.changed_items_batch user since after joplin_item_batch_size
        ≡ ok (or_empty (changed_items_batch collate items user since after joplin_item_batch_size)))
      ⊎ ((error : String) × (source.changed_items_batch user since after joplin_item_batch_size
            ≡ err error))

abbrev Answered {ℓ} : {A : Type ℓ} → Option A → Type ℓ
Answered {A = A} result = (value : A) × (result ≡ some value)

map-Answered :
    {A B : Type 0} (f : A → B) (result : Option A)
    → Answered result
    → Answered (map_option f result)
map-Answered f result (value, is_value) = (f value, ap (map_option f) is_value)

Result-cases : {E A : Type 0} (r : Result E A) → ((e : E) × (r ≡ err e)) ⊎ ((a : A) × (r ≡ ok a))
Result-cases (err e) = inl (e, refl)
Result-cases (ok a) = inr (a, refl)

-- The rest of a loop that ends, ends.
rest_gives :
    {A : Type 0} (f : List A → List A) (later : Option (List A)) (found : List A)
    → map_option f later ≡ some found
    → Answered later
rest_gives f none found h = absurd cc
rest_gives f (some rest) found h = (rest, refl)

module _ (e : Engine) (source : JoplinSource)
    (fetch : Option JoplinItemCursor → List JoplinItem) where
  refresh_gives :
      (user : RefreshUser) (now : DateTime) (fuel : ℕ) (after : Option JoplinItemCursor)
      (progress : Progress) (found : List (List JoplinItem))
      → ((at : Option JoplinItemCursor)
          → FailsOr (fetch at) (
              source.changed_items_batch user.joplin_user_id user.last_seen_joplin_updated_time at
                joplin_item_batch_size))
      → batches cursor_of fetch joplin_item_batch_size fuel after ≡ some found
      → Answered (apply_batches e source user now fuel after progress)
  unfolding batches apply_batches
  refresh_gives user now zero after progress found answers ends = absurd cc
  refresh_gives user now (suc fuel) after progress found answers ends = elim (answers after) [
    | inr (error, fails) ↦ rw (apply_batches, fails) (_, refl)
    | inl answer ↦ elim (Bool-cases (is_empty (fetch after))) [
      | inl nothing ↦ rw (apply_batches, answer, nothing) (_, refl)
      | inr something ↦ elim (Bool-cases (ltb (length (fetch after)) joplin_item_batch_size)) [
        | inl short ↦ rw (apply_batches, answer, something, short) (_, refl)
        | inr full ↦
            let (rest, later) =
              rest_gives (λ rest. fetch after ∷ rest) _ found
                (rw (batches, something, full) at ends) in
            rw (apply_batches, answer, something, full)
              (refresh_gives user now fuel (map_option cursor_of (last? (fetch after)))
                (apply_changed e user now (fetch after) progress) rest answers later)
      ]
    ]
  ]

  rebuild_gives :
      (user : ℕ) (now : DateTime) (joplin_user : Str) (fuel : ℕ) (after : Option JoplinItemCursor)
      (state : Rebuilt) (found : List (List JoplinItem))
      → ((at : Option JoplinItemCursor)
          → FailsOr
              (fetch at)
              (source.changed_items_batch joplin_user none at joplin_item_batch_size))
      → batches cursor_of fetch joplin_item_batch_size fuel after ≡ some found
      → Answered (rebuild_batches e source user now joplin_user fuel after state)
  unfolding batches rebuild_batches
  rebuild_gives user now joplin_user zero after state found answers ends = absurd cc
  rebuild_gives user now joplin_user (suc fuel) after state found answers ends =
      elim (answers after) [
        | inr (error, fails) ↦ rw (rebuild_batches, fails) (_, refl)
        | inl answer ↦ elim (Bool-cases (is_empty (fetch after))) [
          | inl nothing ↦ rw (rebuild_batches, answer, nothing) (_, refl)
          | inr something ↦
              elim (Result-cases (insert_batch e user now joplin_user (fetch after) state)) [
                | inl (failure, fails) ↦ rw (rebuild_batches, answer, something, fails) (_, refl)
                | inr (next, inserts) ↦
                    elim (Bool-cases (ltb (length (fetch after)) joplin_item_batch_size)) [
                      | inl short ↦
                          rw (rebuild_batches, answer, something, inserts, short) (_, refl)
                      | inr full ↦
                          let (rest, later) =
                            rest_gives (λ rest. fetch after ∷ rest) _ found
                              (rw (batches, something, full) at ends) in
                          rw (rebuild_batches, answer, something, inserts, full)
                            (rebuild_gives user now joplin_user fuel
                              (map_option cursor_of (last? (fetch after))) next rest answers later)
                    ]
              ]
        ]
      ]

module _ (e : Engine) (source : JoplinSource) (config : IndexConfig) (items : List RawJoplinItem)
    (collate : Collation) (order : IsOrder collate) (distinct : DistinctIds items)
    (reads : Reads collate items source) where
  transaction_gives :
      (user : ℕ) (now : DateTime) (joplin_user : Str) (db : Index) (state : Table)
      → Answered (
          full_rebuild_user_in_transaction e source user now joplin_user
            (suc (length items))
            db
            state)
  unfolding full_rebuild_user_in_transaction changed_batches
  transaction_gives user now joplin_user db state =
      let (found, ends, all_of_it) =
        changed_batches_complete collate order items joplin_user none distinct in
      map-Answered _ _ (
        rebuild_gives e source
          (λ after.
            or_empty
              (changed_items_batch collate items joplin_user none after joplin_item_batch_size))
          user now joplin_user (suc (length items)) none _ found (reads joplin_user none) ends)

  incremental_gives :
      (user : RefreshUser) (now : DateTime) (db : Index) (state : Table)
      → Answered (apply_incremental_refresh e source user config now (suc (length items)) db state)
  unfolding apply_incremental_refresh changed_batches
  incremental_gives user now db state =
      let since = user.last_seen_joplin_updated_time in
      let (found, ends, all_of_it) =
        changed_batches_complete collate order items user.joplin_user_id since distinct in
      map-Answered _ _ (
        refresh_gives e source
          (λ after. or_empty (
            changed_items_batch collate items user.joplin_user_id since after
              joplin_item_batch_size))
          user now (suc (length items)) none _ found (reads user.joplin_user_id since) ends)

  user_gives :
      (user : RefreshUser) (now : DateTime) (lock_acquired : Bool) (db : Index) (state : Table)
      → Answered (
          incremental_refresh_user e source user config now
            (suc (length items))
            lock_acquired
            db
            state)
  unfolding incremental_refresh_user
  user_gives user now lock_acquired db state =
      chosen (Answered {A = Outcome}) (not lock_acquired) _ _ (_, refl)
        (chosen (Answered {A = Outcome}) _ _ _
          (map-Answered _ _ (transaction_gives user.mcp_user_id now user.joplin_user_id db state))
          (map-Answered _ _ (
            incremental_gives user now db (
              mark_stale_if_needed user.mcp_user_id user.last_incremental_at
                config.refresh_interval_seconds now state))))

  of_refresh-Answered : (done : Option Outcome) → Answered done → Answered (of_refresh done)
  of_refresh-Answered none (value, bad) = absurd cc
  of_refresh-Answered (some done) given = (_, refl)

  task_gives :
      (mark : Option ℤ) (task : Task) (db : Index) (state : Table)
      → Answered (run_task e source config (suc (length items)) mark task db state)
  unfolding run_task
  task_gives mark task db state =
      chosen (Answered {A = TaskDone}) _ _ _
        (of_refresh-Answered _ (user_gives task.user task.now task.lock_acquired db state))
        (_, refl)

  every_task : TasksReturn e source config (suc (length items))
  every_task mark task db state stops =
      let (done, ends) = task_gives mark task db state in
      let clash : none ≡ some done = sym stops ∙ ends in absurd cc

-- A cycle of the worker over Joplin's table, whose ids differ and are told apart by the collation, ends, though any query for a batch may fail,
-- within one round of each loop more than the table has rows, and the users that its statistics count as
-- refreshed, current, locked out or failed add up to the due users, also when the source gives no
-- watermarks.
pub refresh_users-told :
    (e : Engine) (source : JoplinSource) (config : IndexConfig) (collate : Collation)
    (items : List RawJoplinItem) (source_watermarks : Result String (List JoplinSourceWatermark))
    (tasks : List Task) (db : Index) (state : Table)
    → IsOrder collate
    → DistinctIds items
    → Reads collate items source
    → (ended : Cycle) × (refresh_users e source config
          (suc (length items))
          source_watermarks
          tasks
          db
          state
        ≡ some ended)
      × (told ended.stats ≡ length tasks)
refresh_users-told e source config collate items marks tasks db state order distinct reads =
    let (ended, runs, checks, counts) =
      told-refresh_users e source config (suc (length items)) marks tasks db state
        (every_task e source config items collate order distinct reads) in
    (ended, runs, counts)
