-- ===== src/Auth/Tokens/Steps.antt =====
-- The changes of the token tables as steps, and what a revoked token can never do again.
use joplin_mcp_rust.Prelude.{
  both_false, All-append, ℕ, ◌≡◌, refl, sym, ap, ◌∙◌, ◌≢◌, Bool, true, false, ◌&&◌, ◌||◌, String,
  List, [], ◌∷◌, ◌++◌, Option, none, some, ◌==◌, is_some, is_none, any, subst, All, Bool-cases,
  Option-cases, inl, inr, arith, some_injective,
}
use joplin_mcp_rust.Time.{DateTime}
use joplin_mcp_rust.Auth.Tokens.{
  TokenInsert, TokenRow, Tables, update, revocable, revoke_row, revoke_token,
  touch_last_seen_if_stale, row_of, clashes, insert_generated_token,
}

-- A change of the tables: by a bootstrap login, an authentication, a revocation, or by an operator
-- who adds, disables or enables users.
pub data Step (before : Tables) : Tables → Type 0 where
  inserted :
      (token : TokenInsert) (now : DateTime) (after : Tables)
      → insert_generated_token token now before ≡ some after
      → Step before after
  touched :
      (token_id : ℕ) (now min_interval : DateTime)
      → Step before ((touch_last_seen_if_stale token_id now min_interval before).1)
  revoked :
      (token_id : ℕ) (by : Option ℕ) (reason : Option String) (now : DateTime)
      → Step before ((revoke_token token_id by reason now before).1)
  users_changed :
      (users : ℕ → Option (Option DateTime)) → Step before (record before { users = users })

pub data Later (first : Tables) : Tables → Type 0 where
  same_tables : Later first first
  then_step : {before after : Tables} → Later first before → Step before after → Later first after

abbrev pub has_id : ℕ → List TokenRow → Bool
has_id token_id rows = any (λ row. row.id == token_id) rows

-- The token with this id is in the table, and every row with the id is revoked.
abbrev pub IsRevoked : ℕ → Tables → Type 0
IsRevoked token_id tables =
    (has_id token_id tables.rows ≡ true)
    × All (λ row. (row.id == token_id) ≡ true → is_some row.revoked_at ≡ true) tables.rows

has_id-update :
    (token_id : ℕ) (p : TokenRow → Bool) (f : TokenRow → TokenRow) (rows : List TokenRow)
    → ((row : TokenRow) → (f row).id ≡ row.id)
    → has_id token_id (update p f rows) ≡ has_id token_id rows
has_id-update token_id p f [] keeps = refl
has_id-update token_id p f (row ∷ rows) keeps = elim (Bool-cases (p row)) [
  | inl holds ↦ rw (holds, keeps row, has_id-update token_id p f rows keeps) refl
  | inr fails ↦ rw (fails, has_id-update token_id p f rows keeps) refl
]

not_revocable :
    (is_id : Bool) (at : Option DateTime)
    → is_id ≡ true
    → (is_id && is_none at) ≡ false
    → is_some at ≡ true
not_revocable true none h k = absurd cc
not_revocable true (some at) h k = refl
not_revocable false at h k = absurd cc

rest_of : (a b : Bool) → a ≡ false → (a || b) ≡ true → b ≡ true
rest_of a b h k = ground arith

distinct_ids : (a b i : ℕ) → (a == i) ≡ true → (a == b) ≡ false → (b == i) ≡ false
distinct_ids a b i h k = ground arith

pub true_is_not_false : true ≢ false
true_is_not_false h = cc

-- An insertion that is not refused.
pub insert_of :
    (token : TokenInsert) (now : DateTime) (before after : Tables)
    → insert_generated_token token now before ≡ some after
    → (any (clashes token) before.rows ≡ false)
      × (is_none (before.users token.user_id) ≡ false)
      × (record before { rows = before.rows ++ (row_of token now ∷ []) } ≡ after)
unfolding insert_generated_token
insert_of token now before after done =
    elim (Bool-cases (any (clashes token) before.rows || is_none (before.users token.user_id))) [
      | inl refused ↦
          let bad : none ≡ some after = rw (insert_generated_token, refused) at done in absurd cc
      | inr accepted ↦
          let (free, known) = both_false _ _ accepted in
          (free, known, some_injective (rw (insert_generated_token, accepted) at done))
    ]

-- An update that keeps ids and revocations keeps a token revoked.
All-update :
    (token_id : ℕ) (p : TokenRow → Bool) (f : TokenRow → TokenRow) (rows : List TokenRow)
    → ((row : TokenRow) → (f row).id ≡ row.id)
    → ((row : TokenRow) → is_some row.revoked_at ≡ true → is_some (f row).revoked_at ≡ true)
    → All (λ row. (row.id == token_id) ≡ true → is_some row.revoked_at ≡ true) rows
    → All (λ row. (row.id == token_id) ≡ true → is_some row.revoked_at ≡ true) (update p f rows)
All-update token_id p f [] keeps stays h = tt
All-update token_id p f (row ∷ rows) keeps stays (h, hs) = elim (Bool-cases (p row)) [
  | inl holds ↦ rw holds (
    λ is_id. stays row (h (ap (λ i. i == token_id) (sym (keeps row)) ∙ is_id)),
    All-update token_id p f rows keeps stays hs,
  )
  | inr fails ↦ rw fails (h, All-update token_id p f rows keeps stays hs)
]

revoke_keeps_revoked :
    (by : Option ℕ) (reason : Option String) (now : DateTime) (row : TokenRow)
    → is_some (revoke_row by reason now row).revoked_at ≡ true
revoke_keeps_revoked by reason now row = elim (Option-cases row.revoked_at) [
  | inl absent ↦ rw absent refl
  | inr (at, there) ↦ rw there refl
]

-- The revocation meets every row with the id.
All-revoke :
    (token_id : ℕ) (by : Option ℕ) (reason : Option String) (now : DateTime) (rows : List TokenRow)
    → All
        (λ row. (row.id == token_id) ≡ true → is_some row.revoked_at ≡ true)
        (update (revocable token_id) (revoke_row by reason now) rows)
All-revoke token_id by reason now [] = tt
All-revoke token_id by reason now (row ∷ rows) =
    let rest = All-revoke token_id by reason now rows in
    elim (Bool-cases (revocable token_id row)) [
      | inl holds ↦ rw holds (λ is_id. revoke_keeps_revoked by reason now row, rest)
      | inr fails ↦
          rw fails (λ is_id. not_revocable (row.id == token_id) row.revoked_at is_id fails, rest)
    ]

pub revoke_token-IsRevoked :
    (token_id : ℕ) (by : Option ℕ) (reason : Option String) (now : DateTime) (tables : Tables)
    → has_id token_id tables.rows ≡ true
    → IsRevoked token_id ((revoke_token token_id by reason now tables).1)
unfolding revoke_token
revoke_token-IsRevoked token_id by reason now tables known = (
  has_id-update token_id _ _ tables.rows (λ row. refl) ∙ known,
  All-revoke token_id by reason now tables.rows,
)

has_id-append :
    (token_id : ℕ) (rows more : List TokenRow)
    → has_id token_id rows ≡ true
    → has_id token_id (rows ++ more) ≡ true
has_id-append token_id [] more h = absurd cc
has_id-append token_id (row ∷ rows) more h = elim (Bool-cases (row.id == token_id)) [
  | inl holds ↦ rw holds refl
  | inr fails ↦ rw fails (has_id-append token_id rows more (rest_of (row.id == token_id) _ fails h))
]

-- A token that clashes with no row has no row's id.
other_id :
    (token_id : ℕ) (token : TokenInsert) (rows : List TokenRow)
    → has_id token_id rows ≡ true
    → any (clashes token) rows ≡ false
    → (token.id == token_id) ≡ false
other_id token_id token [] h free = absurd cc
other_id token_id token (row ∷ rows) h free =
    let (apart, free_rest) = both_false (clashes token row) (any (clashes token) rows) free in
    elim (Bool-cases (row.id == token_id)) [
      | inl holds ↦ distinct_ids row.id token.id token_id holds ((both_false _ _ apart).0)
      | inr fails ↦ other_id token_id token rows (rest_of (row.id == token_id) _ fails h) free_rest
    ]

Step-IsRevoked :
    (token_id : ℕ) {before after : Tables}
    → Step before after
    → IsRevoked token_id before
    → IsRevoked token_id after
unfolding revoke_token touch_last_seen_if_stale
Step-IsRevoked token_id {before} (inserted token now after done) (known, hs) =
    let (free, users_known, is_after) = insert_of token now before after done in
    subst (λ t. IsRevoked token_id t) is_after
      (
        has_id-append token_id before.rows _ known,
        All-append _ before.rows (row_of token now ∷ []) hs (
          λ is_id.
              absurd
                (true_is_not_false (sym is_id ∙ other_id token_id token before.rows known free)),
          tt,
        ),
      )
Step-IsRevoked token_id {before} (touched other now min_interval) (known, hs) = (
  has_id-update token_id _ _ before.rows (λ row. refl) ∙ known,
  All-update token_id _ _ before.rows (λ row. refl) (λ row h. h) hs,
)
Step-IsRevoked token_id {before} (revoked other by reason now) (known, hs) = (
  has_id-update token_id _ _ before.rows (λ row. refl) ∙ known,
  All-update token_id _ _ before.rows (λ row. refl)
      (λ row h. revoke_keeps_revoked by reason now row) hs,
)
Step-IsRevoked token_id (users_changed users) h = h

pub Later-IsRevoked :
    (token_id : ℕ) {first later : Tables}
    → Later first later
    → IsRevoked token_id first
    → IsRevoked token_id later
Later-IsRevoked token_id same_tables h = h
Later-IsRevoked token_id (then_step path step) h =
    Step-IsRevoked token_id step (Later-IsRevoked token_id path h)
