-- ===== src/Http/RateLimit.antt =====
-- The bootstrap rate limiter of crates/joplin-mcpd/src/http.rs. The counters, a `BTreeMap`, are an
-- association list with each key once; an `Instant` is a number of nanoseconds. Unicode's lower case is
-- the third-party function `to_lowercase`. The lock makes each check one step.
pub mod Laws
pub mod Look
pub mod Windows
use joplin_mcp_rust.Prelude.{
  ℕ, suc, ◌+◌, ◌-◌, ◌*◌, ◌==◌, Bool, true, false, not, ◌&&◌, ◌||◌, List, [], ◌∷◌, map, concat,
  Option, none, some, Result, ok, err, if◌then◌else◌, ltb, leb, same, trim, length, any,
}
use joplin_mcp_rust.Time.{nanos}

abbrev pub bootstrap_rate_limit_max_email_keys : ℕ
bootstrap_rate_limit_max_email_keys = 16_384

abbrev pub bootstrap_rate_limit_prune_interval : ℕ
bootstrap_rate_limit_prune_interval = 60 * nanos

pub record WindowCounter : Type 0 where
  pub window_start : ℕ
  pub count : ℕ

abbrev pub Counters : Type 0
Counters = List (List ℕ × WindowCounter)

pub record BootstrapRateLimitState : Type 0 where
  pub per_email : Counters
  pub next_email_prune_at : Option ℕ

-- `contains_key`
abbrev pub has_key : List ℕ → Counters → Bool
has_key key [] = false
has_key key ((k, counter) ∷ counters) = same k key || has_key key counters

-- `now.saturating_duration_since(counter.window_start) < window`
abbrev pub is_open : ℕ → ℕ → WindowCounter → Bool
is_open now window counter = ltb (now - counter.window_start) window

abbrev pub retain : ℕ → ℕ → Counters → Counters
retain now window [] = []
retain now window ((k, counter) ∷ counters) =
    let rest = retain now window counters in
    if is_open now window counter then (k, counter) ∷ rest else rest

abbrev pub too_early : Option ℕ → ℕ → Bool
too_early none now = false
too_early (some prune_at) now = ltb now prune_at

unfoldable pub prune_windowed_counters :
    BootstrapRateLimitState → ℕ → ℕ → Bool → BootstrapRateLimitState
prune_windowed_counters state now window force =
    if not force && too_early state.next_email_prune_at now then state else (record {
      per_email = retain now window state.per_email;
      next_email_prune_at = some (now + bootstrap_rate_limit_prune_interval);
    })

-- The counter of a key as the request finds it: a new window when there is none or it is over.
abbrev pub reopened : ℕ → ℕ → WindowCounter → WindowCounter
reopened now window counter =
    if is_open now window counter then counter else record { window_start = now; count = 0 }

-- `entry(key).or_insert(...)` and the count of the request.
abbrev pub counted : ℕ → ℕ → WindowCounter → Bool × WindowCounter
counted now limit counter =
    if leb limit counter.count
    then (false, counter)
    else (true, record counter { count = suc counter.count })

abbrev pub count_request : List ℕ → ℕ → ℕ → ℕ → Counters → Bool × Counters
count_request key now window limit [] =
    let (allowed, counter) = counted now limit (record { window_start = now; count = 0 }) in
    (allowed, (key, counter) ∷ [])
count_request key now window limit ((k, counter) ∷ counters) =
    let rest = count_request key now window limit counters in
    let here = counted now limit (reopened now window counter) in
    if same k key then (here.0, (k, here.1) ∷ counters) else (rest.0, (k, counter) ∷ rest.1)

abbrev pub full_without : List ℕ → ℕ → Counters → Bool
full_without key max_keys counters = not (has_key key counters) && leb max_keys (length counters)

abbrev pub make_room : BootstrapRateLimitState → List ℕ → ℕ → ℕ → ℕ → BootstrapRateLimitState
make_room state key now window max_keys =
    let pruned = prune_windowed_counters state now window false in
    if full_without key max_keys pruned.per_email
    then prune_windowed_counters pruned now window true
    else pruned

unfoldable pub allow_windowed_request :
    BootstrapRateLimitState → List ℕ → ℕ → ℕ → ℕ → ℕ → Bool × BootstrapRateLimitState
unfolding prune_windowed_counters
allow_windowed_request state key now window limit max_keys =
    if limit == 0
    then (false, state)
    else let room = make_room state key now window max_keys in
      let (allowed, counters) = count_request key now window limit room.per_email in
      if full_without key max_keys room.per_email
      then (false, room)
      else (allowed, record room { per_email = counters })

abbrev pub hour : ℕ
hour = 60 * 60 * nanos

unfoldable pub allow_email_window :
    BootstrapRateLimitState → List ℕ → ℕ → ℕ → Bool × BootstrapRateLimitState
unfolding allow_windowed_request
allow_email_window state email_key now per_email_per_hour =
    allow_windowed_request state email_key now hour per_email_per_hour
      bootstrap_rate_limit_max_email_keys

module _ (to_lowercase : ℕ → List ℕ) where
  unfoldable pub bootstrap_email_key : List ℕ → List ℕ
  bootstrap_email_key email = concat (map to_lowercase (trim email))

  -- `BootstrapRateLimiter::check`, an error as `false`.
  unfoldable pub check : BootstrapRateLimitState → List ℕ → ℕ → ℕ → Bool × BootstrapRateLimitState
  unfolding allow_email_window bootstrap_email_key
  check state email now per_email_per_hour =
      allow_email_window state (bootstrap_email_key email) now per_email_per_hour
