-- ===== src/Http/RateLimit/Windows.antt =====
-- How many requests of one key the limiter allows while others interleave.
use joplin_mcp_rust.Prelude.{
  ℕ, suc, ◌+◌, ◌-◌, ◌*◌, ◌≤◌, ◌<◌, ◌≡◌, sym, subst, Bool, true, false, ◌&&◌, List, [], ◌∷◌, Option,
  none, some, if◌then◌else◌, ltb, same, Bool-cases, inl, inr, arith, same-eq, All,
}
use joplin_mcp_rust.Http.RateLimit.{
  WindowCounter, Counters, BootstrapRateLimitState, has_key, retain, counted, count_request,
  make_room, allow_windowed_request,
}
use joplin_mcp_rust.Http.RateLimit.Laws.{
  Distinct, Distinct-retain, Distinct-count_request, room_keeps, outcome,
}
use joplin_mcp_rust.Http.RateLimit.Look.{
  look, look_absent, keep_open, look-retain, found, look_self, look_other,
}

-- How many requests of a key the limiter allows in a sequence of requests, each a key and its time.
unfoldable pub admitted : List ℕ → ℕ → ℕ → ℕ → List (List ℕ × ℕ) → BootstrapRateLimitState → ℕ
unfolding allow_windowed_request
admitted key window limit max_keys [] state = 0
admitted key window limit max_keys ((k, now) ∷ requests) state =
    let answer = allow_windowed_request state k now window limit max_keys in
    let rest = admitted key window limit max_keys requests (answer.1) in
    if answer.0 && same k key then suc rest else rest

-- The times of one window that begins at `first`.
abbrev pub Within : ℕ → ℕ → ℕ → Type 0
Within first window now = (first ≤ now) × (now < first + window)

-- What a key's counter leaves for the times of a window that begins at `first`: its window may end
-- and a new one begin.
abbrev budget : ℕ → ℕ → Option WindowCounter → ℕ
budget first limit none = limit
budget first limit (some counter) =
    if ltb counter.window_start first then limit - counter.count + limit else limit - counter.count

budget-keep_open :
    (first limit now window : ℕ) (o : Option WindowCounter)
    → Within first window now
    → budget first limit (keep_open now window o) ≤ budget first limit o
budget-keep_open first limit now window none within = omega arith
budget-keep_open first limit now window (some counter) (begun, not_over) = ground arith

abbrev spent : Bool → ℕ
spent true = 1
spent false = 0

budget-counted :
    (first limit now window : ℕ) (o : Option WindowCounter)
    → Within first window now
    → 0 < limit
    → spent ((counted now limit (found now window o)).0)
        + budget first limit (some ((counted now limit (found now window o)).1))
      ≤ budget first limit o
budget-counted first limit now window none (begun, not_over) some_limit = ground arith
budget-counted first limit now window (some counter) (begun, not_over) some_limit = ground arith

spent_none : (b : Bool) (left : ℕ) → spent (b && false) + left ≤ left
spent_none b left = ground arith

all_spent : (b : Bool) (next left : ℕ) → spent b + next ≤ left → spent (b && true) + next ≤ left
all_spent b next left h = ground arith

add_spent :
    (b : Bool) (rest next left : ℕ)
    → rest ≤ next
    → spent b + next ≤ left
    → (if b then suc rest else rest) ≤ left
add_spent b rest next left h k = ground arith

module _ (key : List ℕ) (first window limit max_keys : ℕ) where
  -- What is kept from request to request: the map has each key once, and the budget of the key is at
  -- most a number.
  abbrev Spends : ℕ → Counters → Type 0
  Spends left counters = Distinct counters × (budget first limit (look key counters) ≤ left)

  Spends-retain :
      (left now : ℕ)
      → Within first window now
      → (counters : Counters) → Spends left counters
      → Spends left (retain now window counters)
  Spends-retain left now within counters (distinct, bound) = (
    Distinct-retain now window counters distinct,
    rw (look-retain now window key counters distinct)
        (omega (arith, bound, budget-keep_open first limit now window (look key counters) within)),
  )

  -- A request of the key itself.
  self_step :
      (k : List ℕ) (now left : ℕ) (counters : Counters)
      → k ≡ key
      → Within first window now
      → 0 < limit
      → Spends left counters
      → (next : ℕ) × Spends next ((count_request k now window limit counters).1)
        × (spent ((count_request k now window limit counters).0) + next ≤ left)
  self_step k now left counters equal within some_limit (distinct, bound) =
      let (allowed, counter) = look_self now window k limit counters in
      let costs = budget-counted first limit now window (look k counters) within some_limit in
      let bound_k : budget first limit (look k counters) ≤ left =
        subst (λ r. budget first limit (look r counters) ≤ left) (sym equal) bound in
      (
        budget first limit (some ((counted now limit (found now window (look k counters))).1)),
        (
          Distinct-count_request now window k limit counters distinct,
          subst
              (λ r.
                budget first limit (look r ((count_request k now window limit counters).1))
                ≤ budget first limit
                    (some ((counted now limit (found now window (look k counters))).1)))
              equal (rw counter (omega arith)),
        ),
        rw allowed (omega (arith, costs, bound_k)),
      )

  -- One request.
  step :
      (k : List ℕ) (now left : ℕ) (state : BootstrapRateLimitState)
      → Within first window now
      → Spends left state.per_email
      → (next : ℕ) × Spends next
          (((allow_windowed_request state k now window limit max_keys).1).per_email)
        × (spent ((allow_windowed_request state k now window limit max_keys).0 && same k key) + next
            ≤ left)
  step k now left state within h =
      let answer = allow_windowed_request state k now window limit max_keys in
      let room = (make_room state k now window max_keys).per_email in
      let (distinct, bound) =
        room_keeps (Spends left) now window (Spends-retain left now within) state k max_keys h in
      elim (outcome state k now window limit max_keys) [
        | inl (refused, same_map) ↦
            (left, subst (Spends left) (sym same_map) h, rw refused (omega arith))
        | inr (inl (refused, same_map)) ↦
            (left, subst (Spends left) (sym same_map) (distinct, bound), rw refused (omega arith))
        | inr (inr (free, some_limit, allowed, counted_map)) ↦ elim (Bool-cases (same k key)) [
          | inl holds ↦
              let (next, (kept, left_over), cost) =
                self_step k now left room (same-eq k key holds) within some_limit
                  (distinct, bound) in
              (
                next,
                subst (Spends next) (sym counted_map) (kept, left_over),
                rw (holds, allowed) (all_spent _ next left cost),
              )
          | inr fails ↦ (
            left,
            subst (Spends left) (sym counted_map) (
              Distinct-count_request now window k limit room distinct,
              rw (look_other now window k key limit room fails) bound,
            ),
            rw fails (spent_none (answer.0) left),
          )
        ]
      ]

  -- Whatever the counters are, and whatever requests of other keys come between: of the requests at
  -- the times of one window, the limiter allows a key at most what its counter leaves.
  admitted_le_budget :
      (requests : List (List ℕ × ℕ)) (left : ℕ) (state : BootstrapRateLimitState)
      → All (λ r. Within first window (r.1)) requests
      → Spends left state.per_email
      → admitted key window limit max_keys requests state ≤ left
  unfolding admitted
  admitted_le_budget [] left state within h = omega arith
  admitted_le_budget ((k, now) ∷ requests) left state (here, later) h =
      let (next, spends, cost) = step k now left state here h in
      let answer = allow_windowed_request state k now window limit max_keys in
      let rest = admitted_le_budget requests next (answer.1) later spends in
      add_spent (answer.0 && same k key) _ next left rest cost

budget_le : (first limit : ℕ) (o : Option WindowCounter) → budget first limit o ≤ 2 * limit
budget_le first limit none = omega arith
budget_le first limit (some counter) = ground arith

-- Of any requests in one window, in any order and with those of other keys between them, the limiter
-- allows a key at most the limit if it has no counter at first, and at most twice the limit if it
-- has one, where the map has each key once at first.
pub admitted_le :
    (key : List ℕ) (first window limit max_keys : ℕ) (requests : List (List ℕ × ℕ))
    (state : BootstrapRateLimitState)
    → Distinct state.per_email
    → All (λ r. Within first window (r.1)) requests
    → admitted key window limit max_keys requests state
      ≤ (if has_key key state.per_email then 2 * limit else limit)
admitted_le key first window limit max_keys requests state distinct within =
    elim (Bool-cases (has_key key state.per_email)) [
      | inl holds ↦ rw holds (
          admitted_le_budget key first window limit max_keys requests (2 * limit) state within
            (distinct, budget_le first limit (look key state.per_email)))
      | inr absent ↦ rw absent (
          admitted_le_budget key first window limit max_keys requests limit state within
            (distinct, rw (look_absent key state.per_email absent) (omega arith)))
    ]
