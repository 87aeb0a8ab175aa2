-- ===== src/Indexer/State/Laws.antt =====
-- What the writes of `joplin_mcp.index_state` promise.
use joplin_mcp_rust.Prelude.{
  ℕ, ◌≡◌, refl, Bool, true, false, String, Option, none, some, arith, ◌==◌, if◌then◌else◌,
  Option-cases, map_option, ==_iff, Bool-cases, inl, inr, some_injective, ap, ◌∙◌,
}
use joplin_mcp_rust.Prelude.Int.{ℤ, ◌≤ℤ◌}
use joplin_mcp_rust.Time.{DateTime}
use joplin_mcp_rust.Indexer.State.{
  stale, failed, as_str, StateRow, Table, put, greatest, is_servable_status,
  request_index_refresh_now, mark_incremental_ready, mark_index_checked, record_incremental_failure,
  record_rebuild_failure, IndexConfig, is_due,
}

-- After a request for a refresh the user is due in the next cycle, whatever the row was and
-- whatever the configuration.
pub request_index_refresh_now-is_due :
    (user : ℕ) (asked later : DateTime) (table : Table) (config : IndexConfig)
    → is_due (request_index_refresh_now user asked table user) config later ≡ true
unfolding request_index_refresh_now is_due
request_index_refresh_now-is_due user asked later table config = ground arith

-- The watermark of a row, compared with that of another: a missing one is the least.
abbrev pub NoLess : Option ℤ → Option ℤ → Type 0
NoLess none b = Unit
NoLess (some a) none = ⊥
NoLess (some a) (some b) = a ≤ℤ b

abbrev pub watermark : Option StateRow → Option ℤ
watermark none = none
watermark (some row) = row.last_seen_joplin_updated_time

NoLess-refl : (a : Option ℤ) → NoLess a a
NoLess-refl none = tt
NoLess-refl (some a) = omega arith

NoLess-greatest_left : (a b : Option ℤ) → NoLess a (greatest a b)
NoLess-greatest_left none b = tt
NoLess-greatest_left (some a) none = omega arith
NoLess-greatest_left (some a) (some b) = ground arith

NoLess-greatest_right : (a b : Option ℤ) → NoLess b (greatest a b)
NoLess-greatest_right a none = tt
NoLess-greatest_right none (some b) = omega arith
NoLess-greatest_right (some a) (some b) = ground arith

put_self : (user : ℕ) (row : StateRow) (table : Table) → put user row table user ≡ some row
put_self user row table = ground arith

-- A write of one row whose watermark is no lower leaves no watermark lower.
NoLess-put :
    (user other : ℕ) (row : StateRow) (table : Table)
    → NoLess (watermark (table user)) row.last_seen_joplin_updated_time
    → NoLess (watermark (table other)) (watermark (put user row table other))
NoLess-put user other row table h = elim (Bool-cases (other == user)) [
  | inl same ↦ let is_user : other ≡ user = (==_iff other user).0 same in rw (same, is_user) h
  | inr different ↦ rw different (NoLess-refl (watermark (table other)))
]

module _ (user other : ℕ) (seen : Option ℤ) (now : DateTime) (table : Table) where
  incremental_grows :
      (applied reconciled : Bool)
      → NoLess
          (watermark (table other))
          (watermark (mark_incremental_ready user seen applied reconciled now table other))
        × NoLess seen
            (watermark (mark_incremental_ready user seen applied reconciled now table user))
  unfolding mark_incremental_ready
  incremental_grows applied reconciled = elim (Option-cases (table user)) [
    | inl absent ↦
        rw (absent, mark_incremental_ready)
          (NoLess-put user other _ table (rw absent tt), rw put_self (NoLess-refl seen))
    | inr (row, there) ↦
        rw (there, mark_incremental_ready)
          (
            NoLess-put user other _ table
                (rw there (NoLess-greatest_left row.last_seen_joplin_updated_time seen)),
            rw put_self (NoLess-greatest_right row.last_seen_joplin_updated_time seen),
          )
  ]

  check_grows :
      NoLess (watermark (table other)) (watermark (mark_index_checked user seen now table other))
      × NoLess seen (watermark (mark_index_checked user seen now table user))
  unfolding mark_index_checked
  check_grows = elim (Option-cases (table user)) [
    | inl absent ↦
        rw (absent, mark_index_checked)
          (NoLess-put user other _ table (rw absent tt), rw put_self (NoLess-refl seen))
    | inr (row, there) ↦
        rw (there, mark_index_checked)
          (
            NoLess-put user other _ table
                (rw there (NoLess-greatest_left row.last_seen_joplin_updated_time seen)),
            rw put_self (NoLess-greatest_right row.last_seen_joplin_updated_time seen),
          )
  ]

-- An incremental refresh and a check leave the watermark of every user no lower than it was, and
-- that of the refreshed user no lower than the time that was seen.
pub watermark_grows :
    (user other : ℕ) (seen : Option ℤ) (applied reconciled : Bool) (now : DateTime) (table : Table)
    → NoLess
        (watermark (table other))
        (watermark (mark_incremental_ready user seen applied reconciled now table other))
      × NoLess seen (watermark (mark_incremental_ready user seen applied reconciled now table user))
      × NoLess (watermark (table other)) (watermark (mark_index_checked user seen now table other))
      × NoLess seen (watermark (mark_index_checked user seen now table user))
watermark_grows user other seen applied reconciled now table =
    let (kept, reached) = incremental_grows user other seen now table applied reconciled in
    let (kept', reached') = check_grows user other seen now table in
    (kept, reached, kept', reached')

-- A row that the tools may be served from.
abbrev pub servable : Option StateRow → Bool
servable none = false
servable (some row) = is_servable_status row.status

-- The status that a failed incremental refresh leaves, from the one before.
abbrev pub status_after_failure : Option StateRow → String
status_after_failure none = as_str failed
status_after_failure (some row) =
    if is_servable_status row.status then as_str stale else as_str failed

servable_after :
    (row : Option StateRow) → is_servable_status (status_after_failure row) ≡ servable row
servable_after none = refl
servable_after (some row) = elim (Bool-cases (is_servable_status row.status)) [
  | inl holds ↦ rw holds refl
  | inr fails ↦ rw fails refl
]

failure_row :
    (user : ℕ) (error : String) (now : DateTime) (table : Table)
    → (map_option (λ r. r.status) (record_incremental_failure user error now table user)
        ≡ some (status_after_failure (table user)))
      × (map_option (λ r. r.last_error) (record_incremental_failure user error now table user)
          ≡ some (some error))
unfolding record_incremental_failure
failure_row user error now table = elim (Option-cases (table user)) [
  | inl absent ↦ rw (absent, record_incremental_failure, put_self) (refl, refl)
  | inr (row, there) ↦ rw (there, record_incremental_failure, put_self) (refl, refl)
]

servable_of_status :
    (row : Option StateRow) (status : String)
    → map_option (λ r. r.status) row ≡ some status
    → servable row ≡ is_servable_status status
servable_of_status none status h = absurd cc
servable_of_status (some row) status h = ap is_servable_status (some_injective h)

-- A failed incremental refresh of a user keeps the index servable exactly if it was, leaves it stale
-- then and failed otherwise, and keeps the error.
pub record_incremental_failure-servable :
    (user : ℕ) (error : String) (now : DateTime) (table : Table)
    → (servable (record_incremental_failure user error now table user) ≡ servable (table user))
      × (map_option (λ r. r.status) (record_incremental_failure user error now table user)
          ≡ some (status_after_failure (table user)))
      × (map_option (λ r. r.last_error) (record_incremental_failure user error now table user)
          ≡ some (some error))
record_incremental_failure-servable user error now table =
    let (status, last_error) = failure_row user error now table in
    (servable_of_status _ _ status ∙ servable_after (table user), status, last_error)

-- A failed full rebuild of a user, with the flag that says whether the index was servable before it,
-- leaves the index as servable as it was.
pub record_rebuild_failure-servable :
    (user : ℕ) (error : String) (now : DateTime) (table : Table)
    → servable (record_rebuild_failure user (servable (table user)) error now table user)
      ≡ servable (table user)
unfolding record_rebuild_failure
record_rebuild_failure-servable user error now table = elim (Option-cases (table user)) [
  | inl absent ↦ rw (absent, record_rebuild_failure, absent, put_self) refl
  | inr (row, there) ↦ elim (Bool-cases (is_servable_status row.status)) [
    | inl holds ↦ rw (there, holds, record_rebuild_failure, there, put_self) holds
    | inr fails ↦ rw (there, fails, record_rebuild_failure, there, put_self) refl
  ]
]
