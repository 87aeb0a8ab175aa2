-- ===== src/Auth/Tokens/Revocation.antt =====
-- What a revocation is final about.
use joplin_mcp_rust.Prelude.{
  ℕ, ◌≡◌, refl, sym, ap, ◌∙◌, ◌≢◌, Bool, true, false, ◌&&◌, String, List, [], ◌∷◌, Option, none,
  some, ok, ◌==◌, subst, All, Any, Bool-cases, Option-cases, inl, inr, arith, some_injective,
  ==_iff,
}
use joplin_mcp_rust.Time.{DateTime}
use joplin_mcp_rust.Auth.Tokens.{
  Crypto, HmacKey, TokenHash, TokenRow, TokenRecord, Tables, join, update, count, revoke_token,
  revocable, revoke_row, authenticate_bearer,
}
use joplin_mcp_rust.Auth.Tokens.Steps.{
  Later, has_id, Later-IsRevoked, revoke_token-IsRevoked, true_is_not_false,
}
use joplin_mcp_rust.Auth.Tokens.Laws.{Gives, IssuedAs, authenticate_bearer-ok}

pub join-row :
    (tables : Tables) (row : TokenRow) (token : TokenRecord)
    → join tables row ≡ some token
    → row ≡ token.row
join-row tables row token h = elim (Option-cases (tables.users row.user_id)) [
  | inl absent ↦ let bad : none ≡ some token = rw absent at h in absurd cc
  | inr (disabled_at, there) ↦ ap (λ (t : TokenRecord). t.row) (some_injective (rw there at h))
]

-- What holds of every row holds of the row that a record is made of.
given_row :
    (P : TokenRow → Type 0) (tables : Tables) (hash : TokenHash) (token : TokenRecord)
    (rows : List TokenRow)
    → All P rows
    → Any (Gives tables hash token) rows
    → P token.row
given_row P tables hash token [] hs found = absurd found
given_row P tables hash token (row ∷ rows) (h, hs) (inl (met, joined)) =
    subst P (join-row tables row token joined) h
given_row P tables hash token (row ∷ rows) (h, hs) (inr later) =
    given_row P tables hash token rows hs later

issued_row :
    (P : TokenRow → Type 0) (c : Crypto) (tables : Tables) (raw : List ℕ) (token : TokenRecord)
    (keys : List HmacKey)
    → All P tables.rows
    → Any (IssuedAs c tables raw token) keys
    → P token.row
issued_row P c tables raw token [] hs found = absurd found
issued_row P c tables raw token (key ∷ keys) hs (inl (hash, hashed, found)) =
    given_row P tables hash token tables.rows hs found
issued_row P c tables raw token (key ∷ keys) hs (inr later) =
    issued_row P c tables raw token keys hs later

-- Behind the revocation of a token that the table holds, no later authentication returns that token,
-- whatever tokens are minted, seen or revoked and whatever users are changed in between.
pub revoked_forever :
    (c : Crypto) (token_id : ℕ) (by : Option ℕ) (reason : Option String) (at : DateTime)
    (tables later : Tables) (authorization : Option (List ℕ)) (keys : List HmacKey) (now : DateTime)
    (token : TokenRecord)
    → has_id token_id tables.rows ≡ true
    → Later ((revoke_token token_id by reason at tables).1) later
    → authenticate_bearer c authorization keys now later ≡ ok token
    → token.row.id ≢ token_id
revoked_forever c token_id by reason at tables later authorization keys now token known path h
      same_id =
    let (known_later, revoked) =
      Later-IsRevoked token_id path (revoke_token-IsRevoked token_id by reason at tables known) in
    let (raw, text, valid, issued, (live, in_time, enabled)) =
      authenticate_bearer-ok c authorization keys now later token h in
    let is_revoked = issued_row _ c later raw token keys revoked issued in
    absurd (true_is_not_false (sym (is_revoked ((==_iff _ _).1 same_id)) ∙ live))

module _ (p : TokenRow → Bool) (f g : TokenRow → TokenRow)
    (settles : (row : TokenRow) → p (g row) ≡ false) where
  count_settled : (rows : List TokenRow) → count p (update p g rows) ≡ 0
  count_settled [] = refl
  count_settled (row ∷ rows) = elim (Bool-cases (p row)) [
    | inl holds ↦ rw (holds, settles row, count_settled rows) refl
    | inr fails ↦ rw (fails, fails, count_settled rows) refl
  ]

  update_settled : (rows : List TokenRow) → update p f (update p g rows) ≡ update p g rows
  update_settled [] = refl
  update_settled (row ∷ rows) = elim (Bool-cases (p row)) [
    | inl holds ↦ rw (holds, settles row, update_settled rows) refl
    | inr fails ↦ rw (fails, fails, update_settled rows) refl
  ]

and_false : (b : Bool) → (b && false) ≡ false
and_false b = ground arith

revoked_is_settled :
    (token_id : ℕ) (by : Option ℕ) (reason : Option String) (now : DateTime) (row : TokenRow)
    → revocable token_id (revoke_row by reason now row) ≡ false
revoked_is_settled token_id by reason now row = elim (Option-cases row.revoked_at) [
  | inl absent ↦ rw absent (and_false (row.id == token_id))
  | inr (at, there) ↦ rw there (and_false (row.id == token_id))
]

-- A second revocation of a token says that it revoked nothing and leaves the tables as the first one
-- did: who revoked the token first, when and why stay on record.
pub revoke_twice :
    (token_id : ℕ) (by by' : Option ℕ) (reason reason' : Option String) (now now' : DateTime)
    (tables : Tables)
    → revoke_token token_id by' reason' now' ((revoke_token token_id by reason now tables).1)
      ≡ (false, (revoke_token token_id by reason now tables).1)
unfolding revoke_token
revoke_twice token_id by by' reason reason' now now' tables =
    let settles = revoked_is_settled token_id by reason now in
    rw
      (
        count_settled (revocable token_id) (revoke_row by reason now) (revoke_row by reason now)
            settles tables.rows,
        update_settled (revocable token_id) (revoke_row by' reason' now') (revoke_row by reason now)
            settles tables.rows,
      )
      refl
