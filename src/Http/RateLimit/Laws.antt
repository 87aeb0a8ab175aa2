-- ===== src/Http/RateLimit/Laws.antt =====
-- The counters of the rate limiter stay a bounded map.
use joplin_mcp_rust.Prelude.{
  both_false, ℕ, suc, ◌==◌, ◌≤◌, ◌<◌, ◌≡◌, refl, sym, subst, ap, ◌∙◌, Bool, true, false, not, ◌&&◌,
  List, [], ◌∷◌, if◌then◌else◌, leb, same, length, Bool-cases, inl, inr, ◌⊎◌, arith, same_refl,
  same-eq,
}
use joplin_mcp_rust.Http.RateLimit.{
  Counters, BootstrapRateLimitState, has_key, is_open, retain, too_early, prune_windowed_counters,
  count_request, full_without, make_room, allow_windowed_request,
}

-- Each key once.
abbrev pub Distinct : Counters → Type 0
Distinct [] = Unit
Distinct ((k, counter) ∷ counters) = (has_key k counters ≡ false) × Distinct counters

pub same_sym : (s t : List ℕ) → same s t ≡ false → same t s ≡ false
same_sym s t h = elim (Bool-cases (same t s)) [
  | inl holds ↦
      let equal : t ≡ s = same-eq t s holds in
      let is_same : same s t ≡ true = ap (λ r. same s r) equal ∙ same_refl s in absurd cc
  | inr fails ↦ fails
]

grown :
    (known : Bool) (n : ℕ)
    → suc (if known then n else suc n) ≡ (if known then suc n else suc (suc n))
grown known n = ground arith

module _ (now window : ℕ) where
  has_key-retain :
      (key : List ℕ) (counters : Counters)
      → has_key key counters ≡ false
      → has_key key (retain now window counters) ≡ false
  has_key-retain key [] h = refl
  has_key-retain key ((k, counter) ∷ counters) h =
      let (other, rest) = both_false (same k key) (has_key key counters) h in
      elim (Bool-cases (is_open now window counter)) [
        | inl holds ↦ rw (holds, other) (has_key-retain key counters rest)
        | inr fails ↦ rw fails (has_key-retain key counters rest)
      ]

  pub Distinct-retain :
      (counters : Counters) → Distinct counters → Distinct (retain now window counters)
  Distinct-retain [] h = tt
  Distinct-retain ((k, counter) ∷ counters) (h, hs) =
      elim (Bool-cases (is_open now window counter)) [
        | inl holds ↦ rw holds (has_key-retain k counters h, Distinct-retain counters hs)
        | inr fails ↦ rw fails (Distinct-retain counters hs)
      ]

  pub length-retain : (counters : Counters) → length (retain now window counters) ≤ length counters
  length-retain [] = omega arith
  length-retain ((k, counter) ∷ counters) =
      let rest = length-retain counters in
      elim (Bool-cases (is_open now window counter)) [
        | inl holds ↦ rw holds (omega arith)
        | inr fails ↦ rw fails (omega arith)
      ]

  module _ (key : List ℕ) (limit : ℕ) where
    has_key-count_request :
        (other : List ℕ) (counters : Counters)
        → same key other ≡ false
        → has_key other counters ≡ false
        → has_key other ((count_request key now window limit counters).1) ≡ false
    has_key-count_request other [] h free = rw h refl
    has_key-count_request other ((k, counter) ∷ counters) h free =
        let (apart, rest) = both_false (same k other) (has_key other counters) free in
        elim (Bool-cases (same k key)) [
          | inl holds ↦ rw (holds, apart) rest
          | inr fails ↦ rw (fails, apart) (has_key-count_request other counters h rest)
        ]

    pub Distinct-count_request :
        (counters : Counters)
        → Distinct counters
        → Distinct ((count_request key now window limit counters).1)
    Distinct-count_request [] h = (refl, tt)
    Distinct-count_request ((k, counter) ∷ counters) (h, hs) = elim (Bool-cases (same k key)) [
      | inl holds ↦ rw holds (h, hs)
      | inr fails ↦ rw fails (
        has_key-count_request k counters (same_sym k key fails) h,
        Distinct-count_request counters hs,
      )
    ]

    pub length-count_request :
        (counters : Counters)
        → length ((count_request key now window limit counters).1)
          ≡ (if has_key key counters then length counters else suc (length counters))
    length-count_request [] = refl
    length-count_request ((k, counter) ∷ counters) = elim (Bool-cases (same k key)) [
      | inl holds ↦ rw holds refl
      | inr fails ↦ rw (fails, length-count_request counters) (grown (has_key key counters) _)
    ]

prune_cases :
    (state : BootstrapRateLimitState) (now window : ℕ) (force : Bool)
    → ((prune_windowed_counters state now window force).per_email ≡ state.per_email)
      ⊎ ((prune_windowed_counters state now window force).per_email
          ≡ retain now window state.per_email)
unfolding prune_windowed_counters
prune_cases state now window force =
    elim (Bool-cases (not force && too_early state.next_email_prune_at now)) [
      | inl holds ↦ inl (rw holds refl)
      | inr fails ↦ inr (rw fails refl)
    ]

-- What every pruning keeps holds of the counters that have room for a key.
module _ (P : Counters → Type 0) (now window : ℕ)
    (keeps : (counters : Counters) → P counters → P (retain now window counters)) where
  prune_keeps :
      (state : BootstrapRateLimitState) (force : Bool)
      → P state.per_email
      → P (prune_windowed_counters state now window force).per_email
  prune_keeps state force h = elim (prune_cases state now window force) [
    | inl left ↦ subst P (sym left) h
    | inr pruned ↦ subst P (sym pruned) (keeps state.per_email h)
  ]

  pub room_keeps :
      (state : BootstrapRateLimitState) (key : List ℕ) (max_keys : ℕ)
      → P state.per_email
      → P (make_room state key now window max_keys).per_email
  room_keeps state key max_keys h =
      elim (Bool-cases
        (full_without key max_keys (prune_windowed_counters state now window false).per_email)) [
          | inl holds ↦ rw holds (
              prune_keeps (prune_windowed_counters state now window false) true
                (prune_keeps state false h))
          | inr fails ↦ rw fails (prune_keeps state false h)
        ]

-- The three ways through a request: no request is allowed, the map is full, or the request counts.
abbrev pub Outcome :
    BootstrapRateLimitState → List ℕ → ℕ → ℕ → ℕ → ℕ → Bool × BootstrapRateLimitState → Type 0
Outcome state key now window limit max_keys (allowed, after) =
    ((allowed ≡ false) × (after.per_email ≡ state.per_email))
    ⊎ ((allowed ≡ false) × (after.per_email ≡ (make_room state key now window max_keys).per_email))
    ⊎ ((full_without key max_keys (make_room state key now window max_keys).per_email ≡ false)
        × (0 < limit)
        × (allowed
            ≡ (count_request key now window limit
                (make_room state key now window max_keys).per_email).0)
        × (after.per_email
            ≡ (count_request key now window limit
                (make_room state key now window max_keys).per_email).1))

positive : (n : ℕ) → (n == 0) ≡ false → 0 < n
positive n h = ground arith

pub outcome :
    (state : BootstrapRateLimitState) (key : List ℕ) (now window limit max_keys : ℕ)
    → Outcome state key now window limit max_keys
        (allow_windowed_request state key now window limit max_keys)
unfolding allow_windowed_request
outcome state key now window limit max_keys = elim (Bool-cases (limit == 0)) [
  | inl holds ↦ rw (allow_windowed_request, holds) (inl (refl, refl))
  | inr some_limit ↦
      elim (Bool-cases
        (full_without key max_keys (make_room state key now window max_keys).per_email)) [
          | inl holds ↦ rw (allow_windowed_request, some_limit, holds) (inr (inl (refl, refl)))
          | inr fails ↦
              rw (allow_windowed_request, some_limit, fails)
                (inr (inr (refl, positive limit some_limit, refl, refl)))
        ]
]

-- What the limiter's map always is: each key once, and no more keys than the limit.
abbrev pub IsBounded : ℕ → Counters → Type 0
IsBounded max_keys counters = Distinct counters × (length counters ≤ max_keys)

IsBounded-retain :
    (max_keys now window : ℕ) (counters : Counters)
    → IsBounded max_keys counters
    → IsBounded max_keys (retain now window counters)
IsBounded-retain max_keys now window counters (distinct, short) =
    (Distinct-retain now window counters distinct, omega (arith, length-retain now window counters))

still_short :
    (known : Bool) (n max_keys : ℕ)
    → (not known && leb max_keys n) ≡ false
    → n ≤ max_keys
    → (if known then n else suc n) ≤ max_keys
still_short known n max_keys h k = ground arith

-- A request of any key leaves the map of the limiter with each key once and at most the given number
-- of keys.
pub allow_windowed_request-IsBounded :
    (state : BootstrapRateLimitState) (key : List ℕ) (now window limit max_keys : ℕ)
    → IsBounded max_keys state.per_email
    → IsBounded max_keys ((allow_windowed_request state key now window limit max_keys).1).per_email
allow_windowed_request-IsBounded state key now window limit max_keys h =
    let room = (make_room state key now window max_keys).per_email in
    let (distinct, short) =
      room_keeps (IsBounded max_keys) now window (IsBounded-retain max_keys now window) state key
        max_keys h in
    elim (outcome state key now window limit max_keys) [
      | inl (refused, same_map) ↦ subst (IsBounded max_keys) (sym same_map) h
      | inr (inl (refused, same_map)) ↦ subst (IsBounded max_keys) (sym same_map) (distinct, short)
      | inr (inr (free, some_limit, allowed, counted_map)) ↦
          subst (IsBounded max_keys) (sym counted_map) (
            Distinct-count_request now window key limit room distinct,
            subst (λ n. n ≤ max_keys) (sym (length-count_request now window key limit room))
                (still_short (has_key key room) (length room) max_keys free short),
          )
    ]
