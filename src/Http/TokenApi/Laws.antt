-- ===== src/Http/TokenApi/Laws.antt =====
-- A bearer who logs out stays out.
use joplin_mcp_rust.Prelude.{
  or_true, ℕ, ◌≡◌, ◌≢◌, refl, subst, ap, ◌∙◌, true, List, [], ◌∷◌, some, Result, ok, err, Any,
  Result-cases, inl, inr, ==_iff,
}
use joplin_mcp_rust.Time.{DateTime}
use joplin_mcp_rust.Http.Headers.{Headers, text}
use joplin_mcp_rust.Auth.Tokens.{
  Crypto, HmacKey, TokenHash, TokenRow, TokenRecord, Tables, authenticate_bearer, revoke_token,
}
use joplin_mcp_rust.Auth.Tokens.Laws.{Gives, IssuedAs, authenticate_bearer-ok}
use joplin_mcp_rust.Auth.Tokens.Steps.{Later, has_id}
use joplin_mcp_rust.Auth.Tokens.Revocation.{join-row, revoked_forever}
use joplin_mcp_rust.Http.TokenApi.{authenticate_api_token, token_revoke}

given-has_id :
    (tables : Tables) (hash : TokenHash) (token : TokenRecord) (rows : List TokenRow)
    → Any (Gives tables hash token) rows
    → has_id token.row.id rows ≡ true
given-has_id tables hash token [] found = absurd found
given-has_id tables hash token (row ∷ rows) (inl (met, joined)) =
    rw
      ((==_iff row.id token.row.id).1
        (ap (λ (r : TokenRow). r.id) (join-row tables row token joined)))
      refl
given-has_id tables hash token (row ∷ rows) (inr later) =
    or_true _ _ (given-has_id tables hash token rows later)

issued-has_id :
    (c : Crypto) (tables : Tables) (raw : List ℕ) (token : TokenRecord) (keys : List HmacKey)
    → Any (IssuedAs c tables raw token) keys
    → has_id token.row.id tables.rows ≡ true
issued-has_id c tables raw token [] found = absurd found
issued-has_id c tables raw token (key ∷ keys) (inl (hash, hashed, found)) =
    given-has_id tables hash token tables.rows found
issued-has_id c tables raw token (key ∷ keys) (inr later) =
    issued-has_id c tables raw token keys later

-- What a logout does when it is not refused: it revokes the token that the bearer authenticates as.
logout_of :
    (c : Crypto) (keys : List HmacKey) (headers : Headers) (now : DateTime) (tables : Tables)
    (token : TokenRecord)
    → authenticate_bearer c (text headers.authorization) keys now tables ≡ ok token
    → (token_revoke c (some keys) headers now tables).1
      ≡ (revoke_token token.row.id (some token.row.user_id) (some "client_logout") now tables).1
unfolding token_revoke authenticate_api_token
logout_of c keys headers now tables token known =
    rw (token_revoke, authenticate_api_token, known) refl

abbrev token_or : Result ℕ TokenRecord → TokenRecord → TokenRecord
token_or (ok token) other = token
token_or (err e) other = other

api-ok :
    (c : Crypto) (keys : List HmacKey) (headers : Headers) (now : DateTime) (tables : Tables)
    (token : TokenRecord)
    → authenticate_api_token c (some keys) headers now tables ≡ ok token
    → authenticate_bearer c (text headers.authorization) keys now tables ≡ ok token
unfolding authenticate_api_token
api-ok c keys headers now tables token h =
    elim (Result-cases (authenticate_bearer c (text headers.authorization) keys now tables)) [
      | inl (found, known) ↦
          known
          ∙ ap (λ t. ok t) (ap (λ r. token_or r found) (rw (authenticate_api_token, known) at h))
      | inr (e, refused) ↦
          let bad : err 401 ≡ ok token = rw (authenticate_api_token, refused) at h in absurd cc
    ]

-- Behind a logout of a bearer who authenticates as a token, no request at any later time authenticates
-- as that token, whatever it sends and whatever happens to the tables in between.
pub token_revoke-is_final :
    (c : Crypto) (keys keys' : List HmacKey) (headers later_headers : Headers)
    (now then_ : DateTime) (tables later : Tables) (token found : TokenRecord)
    → authenticate_bearer c (text headers.authorization) keys now tables ≡ ok token
    → Later ((token_revoke c (some keys) headers now tables).1) later
    → authenticate_api_token c (some keys') later_headers then_ later ≡ ok found
    → found.row.id ≢ token.row.id
token_revoke-is_final c keys keys' headers later_headers now then_ tables later token found known
      path h =
    let (raw, sent, valid, issued, usable) =
      authenticate_bearer-ok c (text headers.authorization) keys now tables token known in
    let same_tables = logout_of c keys headers now tables token known in
    revoked_forever c token.row.id (some token.row.user_id) (some "client_logout") now tables later
      (text later_headers.authorization) keys' then_ found
      (issued-has_id c tables raw token keys issued) (subst (λ t. Later t later) same_tables path)
      (api-ok c keys' later_headers then_ later found h)
