-- ===== src/Http/TokenApi.antt =====
-- The token endpoints of crates/joplin-mcpd/src/http.rs: `authenticate_api_token`, `token_check` and
-- `token_revoke`. The keys are none where `ApiBackend` is not `Repository`. The audit log and failures
-- of the database are left out.
pub mod Laws
use joplin_mcp_rust.Prelude.{
  ℕ, Bool, true, false, String, List, Option, none, some, Result, ok, err,
}
use joplin_mcp_rust.Time.{DateTime}
use joplin_mcp_rust.Http.Headers.{Headers, text}
use joplin_mcp_rust.Auth.Tokens.{
  Crypto, HmacKey, TokenRecord, Tables, authenticate_bearer, revoke_token,
}

pub record TokenCheckResponse : Type 0 where
  pub valid : Bool
  pub user_id : ℕ
  pub token_id : ℕ
  pub label : String
  pub scope : String
  pub expires_at : Option DateTime

-- A status alone, or the body of a reply.
pub data Reply (A : Type 0) : Type 0 where
  status_code : ℕ → Reply A
  json : A → Reply A

module _ (c : Crypto) (hmac_keys : Option (List HmacKey)) where
  -- An error is a status code.
  unfoldable pub authenticate_api_token : Headers → DateTime → Tables → Result ℕ TokenRecord
  unfolding authenticate_bearer
  authenticate_api_token headers now tables = elim hmac_keys [
    | none ↦ err 501
    | some keys ↦ elim (authenticate_bearer c (text headers.authorization) keys now tables) [
      | ok token ↦ ok token
      | err e ↦ err 401
    ]
  ]

  unfoldable pub token_check : Headers → DateTime → Tables → Reply TokenCheckResponse
  unfolding authenticate_api_token
  token_check headers now tables = elim (authenticate_api_token headers now tables) [
    | err code ↦ status_code 401
    | ok token ↦ json (record {
      valid = true;
      user_id = token.row.user_id;
      token_id = token.row.id;
      label = token.row.label;
      scope = token.row.scope;
      expires_at = token.row.expires_at;
    })
  ]

  abbrev revoked_reply : Bool × Tables → Reply Bool × Tables
  revoked_reply (revoked, after) = (json revoked, after)

  -- The reply says whether the token was revoked by this call.
  unfoldable pub token_revoke : Headers → DateTime → Tables → Reply Bool × Tables
  unfolding authenticate_api_token revoke_token
  token_revoke headers now tables = elim hmac_keys [
    | none ↦ (status_code 501, tables)
    | some keys ↦ elim (authenticate_api_token headers now tables) [
      | err code ↦ (status_code 401, tables)
      | ok token ↦
          revoked_reply
            (revoke_token token.row.id (some token.row.user_id) (some "client_logout") now tables)
    ]
  ]
