-- ===== src/Indexer/State/Refresh.antt =====
-- What it means that the indexer passes a user over.
use joplin_mcp_rust.Prelude.{
  ℕ, ◌+◌, ◌*◌, ◌/◌, ◌-◌, suc, zero, ◌≤◌, ◌<◌, ◌≡◌, ◌⊎◌, ◌↔◌, inl, inr, refl, sym, ◌∙◌, Bool, true,
  false, ◌||◌, not, Option, none, some, arith, if◌then◌else◌, leb, ltb, String, str_eq, eq_iff,
  Bool-cases,
}
use joplin_mcp_rust.Prelude.Int.{ℤ, pos, ◌-ℤ◌, ltb_ℤ, leb_ℤ, sub_ℕ, pos_part, neg_part}
use joplin_mcp_rust.Time.{DateTime, nanos, neg, since, num_seconds}
use joplin_mcp_rust.Indexer.State.{
  StateRow, is_servable_status, IndexConfig, refresh_needed, behind, requires_full_rebuild,
  refresh_gap_seconds, full_rebuild_due, hard_delete_reconciliation_due, u64_max, due_after,
}

-- The watermark of the source, if there is one, is below that of a row.
abbrev pub Behind : Option ℤ → Option ℤ → Type 0
Behind none seen = Unit
Behind (some source) none = ⊥
Behind (some source) (some seen) = ltb_ℤ source seen ≡ true

-- A time that is there and less than so many nanoseconds ago; a time ahead of the clock counts.
abbrev pub Within : ℕ → Option DateTime → DateTime → Type 0
Within limit none now = ⊥
Within limit (some last) now = pos_part now + neg_part last < limit + (pos_part last + neg_part now)

-- The index of this row is current: it is servable, the last refresh lies less than a second beyond the
-- lookback back, the last full rebuild and the last reconciliation less than their intervals, and the
-- source has nothing that is not older than what was seen.
abbrev pub IsCurrent : StateRow → Option ℤ → IndexConfig → DateTime → Type 0
IsCurrent row source config now =
    ((row.status ≡ "ready") ⊎ (row.status ≡ "stale"))
    × Within ((config.incremental_lookback_max_seconds + 1) * nanos) row.last_incremental_at now
    × Within (config.full_rebuild_interval_hours * 3600 * nanos) row.last_full_rebuild_at now
    × Within (config.hard_delete_reconcile_interval_hours * 3600 * nanos) row.last_reconciled_at now
    × Behind source row.last_seen_joplin_updated_time

-- An interval has passed between two times, each written as a difference.
passed : (k x y : ℕ) → leb_ℤ (pos k) (sub_ℕ x y) ≡ leb (k + y) x
passed k x y = elim (Bool-cases (leb y x)) [
  | inl later ↦ rw later (ground arith)
  | inr earlier ↦ rw earlier (ground arith)
]

pos_part-neg : (n : ℕ) → pos_part (neg n) ≡ 0
pos_part-neg zero = refl
pos_part-neg (suc n) = refl

whole_seconds : (limit d : ℕ) → ltb limit (d / nanos) ≡ leb ((limit + 1) * nanos) d
whole_seconds limit d = ground arith

gap_passed :
    (limit x y : ℕ)
    → ltb limit (pos_part (num_seconds (sub_ℕ x y))) ≡ leb ((limit + 1) * nanos + y) x
unfolding num_seconds
gap_passed limit x y = elim (Bool-cases (leb y x)) [
  | inl later ↦ rw (later, whole_seconds limit (x - y)) (ground arith)
  | inr earlier ↦ rw (earlier, pos_part-neg (suc (y - x - 1) / nanos)) (ground arith)
]

due_within :
    (n : ℕ) (last : Option DateTime) (now : DateTime)
    → (due_after last n now ≡ false) ↔ Within (n * 3600 * nanos) last now
unfolding since ◌-ℤ◌
due_within n none now = (λ h. absurd cc, λ h. absurd h)
due_within n (some last) now =
    let k = n * 3600 * nanos in
    let x = pos_part now + neg_part last in
    let y = neg_part now + pos_part last in
    let due : due_after (some last) n now ≡ leb (k + y) x = passed k x y in
    (
      λ h. let late : leb (k + y) x ≡ false = sym due ∙ h in ground arith,
      λ h. due ∙ (let late : leb (k + y) x ≡ false = ground arith in late),
    )

gap_within :
    (limit : ℕ) (last : Option DateTime) (now : DateTime)
    → limit < u64_max
    → (requires_full_rebuild (refresh_gap_seconds last now) limit ≡ false)
      ↔ Within ((limit + 1) * nanos) last now
unfolding requires_full_rebuild refresh_gap_seconds since ◌-ℤ◌
gap_within limit none now below =
    (λ h. let bad : u64_max ≤ limit = ground arith in absurd (omega arith), λ h. absurd h)
gap_within limit (some last) now below =
    let k = (limit + 1) * nanos in
    let x = pos_part now + neg_part last in
    let y = neg_part now + pos_part last in
    let due : requires_full_rebuild (refresh_gap_seconds (some last) now) limit ≡ leb (k + y) x =
      gap_passed limit x y in
    (
      λ h. let late : leb (k + y) x ≡ false = sym due ∙ h in ground arith,
      λ h. due ∙ (let late : leb (k + y) x ≡ false = ground arith in late),
    )

behind_iff : (source seen : Option ℤ) → (behind source seen ≡ false) ↔ Behind source seen
behind_iff none seen = (λ h. tt, λ h. refl)
behind_iff (some source) none = (λ h. absurd cc, λ h. absurd h)
behind_iff (some source) (some seen) = (λ h. ground arith, λ h. ground arith)

servable_iff :
    (status : String)
    → (is_servable_status status ≡ true) ↔ ((status ≡ "ready") ⊎ (status ≡ "stale"))
servable_iff status = (
  λ h. elim (Bool-cases (str_eq status "ready")) [
    | inl is_ready ↦ inl ((eq_iff status "ready").0 is_ready)
    | inr other ↦ inr ((eq_iff status "stale").0 (rw other at h))
  ],
  λ named. elim named [ inl is_ready ↦ rw is_ready refl | inr is_stale ↦ rw is_stale refl ],
)

-- The tests of `refresh_needed`, one behind the other.
all_tests :
    (serves gap rebuild reconcile late : Bool)
    → ((if not serves
          then true
          else if gap || rebuild
          then true
          else if reconcile
          then true
          else late)
        ≡ false)
      ↔ ((serves ≡ true) × (gap ≡ false) × (rebuild ≡ false) × (reconcile ≡ false) × (late ≡ false))
all_tests serves gap rebuild reconcile late = (λ h. ground arith, λ h. ground arith)

-- The worker passes a user over exactly if the index of the user is current: its status is ready or stale,
-- it was refreshed less than a second more than the lookback ago, rebuilt and reconciled less than their
-- intervals ago, and the source has no item or its newest is older than what was seen. The lookback is
-- below the largest 64-bit number.
pub refresh_needed_iff :
    (row : StateRow) (source : Option ℤ) (config : IndexConfig) (now : DateTime)
    → config.incremental_lookback_max_seconds < u64_max
    → (refresh_needed (some row) source config now ≡ false) ↔ IsCurrent row source config now
unfolding refresh_needed full_rebuild_due hard_delete_reconciliation_due
refresh_needed_iff row source config now below =
    let tests =
      all_tests (is_servable_status row.status)
        (requires_full_rebuild (refresh_gap_seconds row.last_incremental_at now)
          config.incremental_lookback_max_seconds)
        (full_rebuild_due row.last_full_rebuild_at config.full_rebuild_interval_hours now)
        (hard_delete_reconciliation_due row.last_reconciled_at
          config.hard_delete_reconcile_interval_hours now)
        (behind source row.last_seen_joplin_updated_time) in
    let serves = servable_iff row.status in
    let gap =
      gap_within config.incremental_lookback_max_seconds row.last_incremental_at now below in
    let rebuild = due_within config.full_rebuild_interval_hours row.last_full_rebuild_at now in
    let reconcile =
      due_within config.hard_delete_reconcile_interval_hours row.last_reconciled_at now in
    let late = behind_iff source row.last_seen_joplin_updated_time in
    (
      λ h.
          let (a, b, c, d, e) = tests.0 h in
          (serves.0 a, gap.0 b, rebuild.0 c, reconcile.0 d, late.0 e),
      λ h.
          let (a, b, c, d, e) = h in
          tests.1 (serves.1 a, gap.1 b, rebuild.1 c, reconcile.1 d, late.1 e),
    )
