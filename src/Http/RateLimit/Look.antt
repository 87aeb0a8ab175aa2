-- ===== src/Http/RateLimit/Look.antt =====
-- What a request and a pruning do to the counter of a key.
use joplin_mcp_rust.Prelude.{
  ℕ, ◌≡◌, refl, subst, ap, ◌∙◌, true, false, List, [], ◌∷◌, Option, none, some, if◌then◌else◌, same,
  Bool-cases, inl, inr, same_refl, same-eq,
}
use joplin_mcp_rust.Http.RateLimit.{
  WindowCounter, Counters, has_key, is_open, retain, reopened, counted, count_request,
}
use joplin_mcp_rust.Http.RateLimit.Laws.{Distinct}

abbrev pub look : List ℕ → Counters → Option WindowCounter
look key [] = none
look key ((k, counter) ∷ counters) = if same k key then some counter else look key counters

pub look_absent :
    (key : List ℕ) (counters : Counters) → has_key key counters ≡ false → look key counters ≡ none
look_absent key [] h = refl
look_absent key ((k, counter) ∷ counters) h = elim (Bool-cases (same k key)) [
  | inl holds ↦ let bad : true ≡ false = rw holds at h in absurd cc
  | inr fails ↦ rw fails (look_absent key counters (rw fails at h))
]

abbrev pub keep_open : ℕ → ℕ → Option WindowCounter → Option WindowCounter
keep_open now window none = none
keep_open now window (some counter) = if is_open now window counter then some counter else none

pub look-retain :
    (now window : ℕ) (key : List ℕ) (counters : Counters)
    → Distinct counters
    → look key (retain now window counters) ≡ keep_open now window (look key counters)
look-retain now window key [] h = refl
look-retain now window key ((k, counter) ∷ counters) (h, hs) = elim (Bool-cases (same k key)) [
  | inl holds ↦ elim (Bool-cases (is_open now window counter)) [
    | inl opened ↦ rw (opened, holds, opened) refl
    | inr closed ↦
        let equal : k ≡ key = same-eq k key holds in
        let absent : has_key key counters ≡ false =
          subst (λ r. has_key r counters ≡ false) equal h in
        rw (closed, holds, closed)
          (look-retain now window key counters hs
            ∙ ap (keep_open now window) (look_absent key counters absent))
  ]
  | inr fails ↦ elim (Bool-cases (is_open now window counter)) [
    | inl opened ↦ rw (opened, fails) (look-retain now window key counters hs)
    | inr closed ↦ rw (closed, fails) (look-retain now window key counters hs)
  ]
]

-- The counter that a request of a key finds.
abbrev pub found : ℕ → ℕ → Option WindowCounter → WindowCounter
found now window none = record { window_start = now; count = 0 }
found now window (some counter) = reopened now window counter

pub look_self :
    (now window : ℕ) (key : List ℕ) (limit : ℕ) (counters : Counters)
    → ((count_request key now window limit counters).0
        ≡ (counted now limit (found now window (look key counters))).0)
      × (look key ((count_request key now window limit counters).1)
          ≡ some ((counted now limit (found now window (look key counters))).1))
look_self now window key limit [] = (refl, rw (same_refl key) refl)
look_self now window key limit ((k, counter) ∷ counters) = elim (Bool-cases (same k key)) [
  | inl holds ↦ rw (holds, holds) (refl, refl)
  | inr fails ↦ rw (fails, fails) (look_self now window key limit counters)
]

pub look_other :
    (now window : ℕ) (key other : List ℕ) (limit : ℕ) (counters : Counters)
    → same key other ≡ false
    → look other ((count_request key now window limit counters).1) ≡ look other counters
look_other now window key other limit [] h = rw h refl
look_other now window key other limit ((k, counter) ∷ counters) h = elim (Bool-cases (same k key)) [
  | inl holds ↦ let equal : k ≡ key = same-eq k key holds in rw (holds, equal, h) refl
  | inr fails ↦ elim (Bool-cases (same k other)) [
    | inl meets ↦ rw (fails, meets) refl
    | inr passes ↦ rw (fails, passes) (look_other now window key other limit counters h)
  ]
]
