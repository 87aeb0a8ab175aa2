-- ===== src/Indexer/State/Steps.antt =====
-- The writes of `joplin_mcp.index_state` as the steps of a state machine, and what every table that
-- they reach satisfies.
use joplin_mcp_rust.Prelude.{
  ℕ, ◌≡◌, refl, Bool, true, false, String, Option, none, some, str_eq, ◌==◌, Option-cases,
  Bool-cases, inl, inr, subst,
}
use joplin_mcp_rust.Prelude.Int.{ℤ}
use joplin_mcp_rust.Time.{DateTime}
use joplin_mcp_rust.Indexer.State.{
  IndexStatus, empty, building, ready, stale, failed, as_str, StateRow, Table, put,
  is_servable_status, request_index_refresh_now, mark_building, mark_rebuild_ready,
  mark_stale_if_needed, is_stale, mark_incremental_ready, mark_index_checked,
  record_incremental_failure, record_rebuild_failure,
}

-- One statement of the program that writes the table: by the tools, the refresh or a rebuild.
pub data Step (before : Table) : Table → Type 0 where
  requested : (user : ℕ) (now : DateTime) → Step before (request_index_refresh_now user now before)
  started : (user : ℕ) (now : DateTime) → Step before (mark_building user now before)
  rebuilt :
      (user : ℕ) (seen : Option ℤ) (now : DateTime)
      → Step before (mark_rebuild_ready user seen now before)
  aged :
      (user : ℕ) (last : Option DateTime) (interval : ℕ) (now : DateTime)
      → Step before (mark_stale_if_needed user last interval now before)
  refreshed :
      (user : ℕ) (seen : Option ℤ) (applied reconciled : Bool) (now : DateTime)
      → Step before (mark_incremental_ready user seen applied reconciled now before)
  checked :
      (user : ℕ) (seen : Option ℤ) (now : DateTime)
      → Step before (mark_index_checked user seen now before)
  refresh_failed :
      (user : ℕ) (error : String) (now : DateTime)
      → Step before (record_incremental_failure user error now before)
  rebuild_failed :
      (user : ℕ) (previous : Bool) (error : String) (now : DateTime)
      → Step before (record_rebuild_failure user previous error now before)

-- The tables that the program reaches from the empty one.
pub data Reachable : Table → Type 0 where
  start : Reachable (λ user. none)
  next : {before after : Table} → Reachable before → Step before after → Reachable after

-- A row's status is the text of one of the indexer's statuses.
abbrev pub Known : Option StateRow → Type 0
Known none = Unit
Known (some row) = (status : IndexStatus) × (row.status ≡ as_str status)

Known-put :
    (user : ℕ) (row : StateRow) (table : Table)
    → Known (some row)
    → ((u : ℕ) → Known (table u))
    → (u : ℕ) → Known (put user row table u)
Known-put user row table known all u = elim (Bool-cases (u == user)) [
  | inl same ↦ rw same known
  | inr different ↦ rw different (all u)
]

module _ (table : Table) (all : (u : ℕ) → Known (table u)) where
  row-Known : {user : ℕ} {row : StateRow} → table user ≡ some row → Known (some row)
  row-Known {user} there = subst Known there (all user)

  requested-Known :
      (user : ℕ) (now : DateTime) (u : ℕ) → Known (request_index_refresh_now user now table u)
  unfolding request_index_refresh_now
  requested-Known user now u = elim (Option-cases (table user)) [
    | inl absent ↦
        rw (absent, request_index_refresh_now) (Known-put user _ table (empty, refl) all u)
    | inr (row, there) ↦ elim (Bool-cases (str_eq row.status (as_str building))) [
      | inl holds ↦ rw (there, request_index_refresh_now, holds) (all u)
      | inr fails ↦
          rw (there, request_index_refresh_now, fails)
            (Known-put user _ table (row-Known there) all u)
    ]
  ]

  started-Known : (user : ℕ) (now : DateTime) (u : ℕ) → Known (mark_building user now table u)
  unfolding mark_building
  started-Known user now u = elim (Option-cases (table user)) [
    | inl absent ↦ rw (absent, mark_building) (Known-put user _ table (building, refl) all u)
    | inr (row, there) ↦ rw (there, mark_building) (Known-put user _ table (building, refl) all u)
  ]

  rebuilt-Known :
      (user : ℕ) (seen : Option ℤ) (now : DateTime) (u : ℕ)
      → Known (mark_rebuild_ready user seen now table u)
  unfolding mark_rebuild_ready
  rebuilt-Known user seen now u = elim (Option-cases (table user)) [
    | inl absent ↦ rw (absent, mark_rebuild_ready) (all u)
    | inr (row, there) ↦ rw (there, mark_rebuild_ready) (Known-put user _ table (ready, refl) all u)
  ]

  aged-Known :
      (user : ℕ) (last : Option DateTime) (interval : ℕ) (now : DateTime) (u : ℕ)
      → Known (mark_stale_if_needed user last interval now table u)
  unfolding mark_stale_if_needed
  aged-Known user last interval now u = elim (Bool-cases (is_stale last interval now)) [
    | inr young ↦ rw (young, mark_stale_if_needed) (all u)
    | inl old ↦ elim (Option-cases (table user)) [
      | inl absent ↦ rw (old, absent, mark_stale_if_needed) (all u)
      | inr (row, there) ↦ elim (Bool-cases (str_eq row.status (as_str ready))) [
        | inl holds ↦
            rw (old, there, mark_stale_if_needed, holds)
              (Known-put user _ table (stale, refl) all u)
        | inr fails ↦ rw (old, there, mark_stale_if_needed, fails) (all u)
      ]
    ]
  ]

  refreshed-Known :
      (user : ℕ) (seen : Option ℤ) (applied reconciled : Bool) (now : DateTime) (u : ℕ)
      → Known (mark_incremental_ready user seen applied reconciled now table u)
  unfolding mark_incremental_ready
  refreshed-Known user seen applied reconciled now u = elim (Option-cases (table user)) [
    | inl absent ↦ rw (absent, mark_incremental_ready) (Known-put user _ table (ready, refl) all u)
    | inr (row, there) ↦
        rw (there, mark_incremental_ready) (Known-put user _ table (ready, refl) all u)
  ]

  checked-Known :
      (user : ℕ) (seen : Option ℤ) (now : DateTime) (u : ℕ)
      → Known (mark_index_checked user seen now table u)
  unfolding mark_index_checked
  checked-Known user seen now u = elim (Option-cases (table user)) [
    | inl absent ↦ rw (absent, mark_index_checked) (Known-put user _ table (ready, refl) all u)
    | inr (row, there) ↦ rw (there, mark_index_checked) (Known-put user _ table (ready, refl) all u)
  ]

  refresh_failed-Known :
      (user : ℕ) (error : String) (now : DateTime) (u : ℕ)
      → Known (record_incremental_failure user error now table u)
  unfolding record_incremental_failure
  refresh_failed-Known user error now u = elim (Option-cases (table user)) [
    | inl absent ↦
        rw (absent, record_incremental_failure) (Known-put user _ table (failed, refl) all u)
    | inr (row, there) ↦ elim (Bool-cases (is_servable_status row.status)) [
      | inl holds ↦
          rw (there, record_incremental_failure, holds) (Known-put user _ table (stale, refl) all u)
      | inr fails ↦
          rw (there, record_incremental_failure, fails)
            (Known-put user _ table (failed, refl) all u)
    ]
  ]

  rebuild_failed-Known :
      (user : ℕ) (previous : Bool) (error : String) (now : DateTime) (u : ℕ)
      → Known (record_rebuild_failure user previous error now table u)
  unfolding record_rebuild_failure
  rebuild_failed-Known user true error now u = elim (Option-cases (table user)) [
    | inl absent ↦ rw (absent, record_rebuild_failure) (all u)
    | inr (row, there) ↦
        rw (there, record_rebuild_failure) (Known-put user _ table (row-Known there) all u)
  ]
  rebuild_failed-Known user false error now u = elim (Option-cases (table user)) [
    | inl absent ↦ rw (absent, record_rebuild_failure) (Known-put user _ table (failed, refl) all u)
    | inr (row, there) ↦
        rw (there, record_rebuild_failure) (Known-put user _ table (failed, refl) all u)
  ]

-- No table that the program reaches holds a status that the indexer does not name.
pub Reachable-Known : {table : Table} → Reachable table → (user : ℕ) → Known (table user)
Reachable-Known start user = tt
Reachable-Known (next {before} r (requested u now)) user =
    requested-Known before (Reachable-Known r) u now user
Reachable-Known (next {before} r (started u now)) user =
    started-Known before (Reachable-Known r) u now user
Reachable-Known (next {before} r (rebuilt u seen now)) user =
    rebuilt-Known before (Reachable-Known r) u seen now user
Reachable-Known (next {before} r (aged u last interval now)) user =
    aged-Known before (Reachable-Known r) u last interval now user
Reachable-Known (next {before} r (refreshed u seen applied reconciled now)) user =
    refreshed-Known before (Reachable-Known r) u seen applied reconciled now user
Reachable-Known (next {before} r (checked u seen now)) user =
    checked-Known before (Reachable-Known r) u seen now user
Reachable-Known (next {before} r (refresh_failed u error now)) user =
    refresh_failed-Known before (Reachable-Known r) u error now user
Reachable-Known (next {before} r (rebuild_failed u previous error now)) user =
    rebuild_failed-Known before (Reachable-Known r) u previous error now user
