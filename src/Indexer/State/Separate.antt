-- ===== src/Indexer/State/Separate.antt =====
-- The writes of the index state keep to the row of their user.
use joplin_mcp_rust.Prelude.{
  ℕ, ◌≡◌, ◌≢◌, refl, Bool, true, false, String, Option, arith, str_eq, Option-cases, Bool-cases,
  inl, inr,
}
use joplin_mcp_rust.Prelude.Int.{ℤ}
use joplin_mcp_rust.Time.{DateTime}
use joplin_mcp_rust.Indexer.State.{
  as_str, StateRow, Table, put, request_index_refresh_now, mark_building, mark_rebuild_ready,
  mark_stale_if_needed, mark_incremental_ready, mark_index_checked, record_incremental_failure,
  record_rebuild_failure, is_stale, ready, building,
}

module _ (user other : ℕ) (now : DateTime) (table : Table) (distinct : user ≢ other) where
  put_other : (row : StateRow) → put user row table other ≡ table other
  put_other row = ground arith

  request_is_separate : request_index_refresh_now user now table other ≡ table other
  unfolding request_index_refresh_now
  request_is_separate = elim (Option-cases (table user)) [
    | inl absent ↦ rw (absent, request_index_refresh_now) (put_other _)
    | inr (row, there) ↦ elim (Bool-cases (str_eq row.status (as_str building))) [
      | inl holds ↦ rw (there, request_index_refresh_now, holds) refl
      | inr fails ↦ rw (there, request_index_refresh_now, fails) (put_other _)
    ]
  ]

  rebuild_is_separate :
      (seen : Option ℤ)
      → (mark_building user now table other ≡ table other)
        × (mark_rebuild_ready user seen now table other ≡ table other)
  unfolding mark_building mark_rebuild_ready
  rebuild_is_separate seen = elim (Option-cases (table user)) [
    | inl absent ↦ rw (absent, mark_building, mark_rebuild_ready) (put_other _, refl)
    | inr (row, there) ↦ rw (there, mark_building, mark_rebuild_ready) (put_other _, put_other _)
  ]

  incremental_is_separate :
      (seen : Option ℤ) (applied reconciled : Bool)
      → (mark_incremental_ready user seen applied reconciled now table other ≡ table other)
        × (mark_index_checked user seen now table other ≡ table other)
  unfolding mark_incremental_ready mark_index_checked
  incremental_is_separate seen applied reconciled = elim (Option-cases (table user)) [
    | inl absent ↦
        rw (absent, mark_incremental_ready, mark_index_checked) (put_other _, put_other _)
    | inr (row, there) ↦
        rw (there, mark_incremental_ready, mark_index_checked) (put_other _, put_other _)
  ]

  pub failures_are_separate :
      (previous : Bool) (error : String)
      → (record_incremental_failure user error now table other ≡ table other)
        × (record_rebuild_failure user previous error now table other ≡ table other)
  unfolding record_incremental_failure record_rebuild_failure
  failures_are_separate true error = elim (Option-cases (table user)) [
    | inl absent ↦
        rw (absent, record_incremental_failure, record_rebuild_failure) (put_other _, refl)
    | inr (row, there) ↦
        rw (there, record_incremental_failure, record_rebuild_failure) (put_other _, put_other _)
  ]
  failures_are_separate false error = elim (Option-cases (table user)) [
    | inl absent ↦
        rw (absent, record_incremental_failure, record_rebuild_failure) (put_other _, put_other _)
    | inr (row, there) ↦
        rw (there, record_incremental_failure, record_rebuild_failure) (put_other _, put_other _)
  ]

  stale_is_separate :
      (last : Option DateTime) (interval : ℕ)
      → mark_stale_if_needed user last interval now table other ≡ table other
  unfolding mark_stale_if_needed
  stale_is_separate last interval = elim (Bool-cases (is_stale last interval now)) [
    | inr fresh_still ↦ rw (fresh_still, mark_stale_if_needed) refl
    | inl old ↦ elim (Option-cases (table user)) [
      | inl absent ↦ rw (old, absent, mark_stale_if_needed) refl
      | inr (row, there) ↦ elim (Bool-cases (str_eq row.status (as_str ready))) [
        | inl holds ↦ rw (old, there, mark_stale_if_needed, holds) (put_other _)
        | inr fails ↦ rw (old, there, mark_stale_if_needed, fails) refl
      ]
    ]
  ]

-- No write of one user's row touches another's.
pub writes_are_separate :
    (user other : ℕ) (seen : Option ℤ) (applied reconciled previous : Bool) (last : Option DateTime)
    (interval : ℕ) (error : String) (now : DateTime) (table : Table)
    → user ≢ other
    → (request_index_refresh_now user now table other ≡ table other)
      × ((mark_building user now table other ≡ table other)
          × (mark_rebuild_ready user seen now table other ≡ table other))
      × (mark_stale_if_needed user last interval now table other ≡ table other)
      × ((mark_incremental_ready user seen applied reconciled now table other ≡ table other)
          × (mark_index_checked user seen now table other ≡ table other))
      × ((record_incremental_failure user error now table other ≡ table other)
          × (record_rebuild_failure user previous error now table other ≡ table other))
writes_are_separate user other seen applied reconciled previous last interval error now table h = (
  request_is_separate user other now table h,
  rebuild_is_separate user other now table h seen,
  stale_is_separate user other now table h last interval,
  incremental_is_separate user other now table h seen applied reconciled,
  failures_are_separate user other now table h previous error,
)
