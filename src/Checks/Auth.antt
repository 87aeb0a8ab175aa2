-- ===== src/Checks/Auth.antt =====
-- A token from its minting to its revocation.
use joplin_mcp_rust.Prelude.{
  ℕ, ◌≡◌, ◌≢◌, refl, Bool, true, false, String, List, [], ◌∷◌, ◌++◌, Option, none, some, ok, Any,
  chars,
}
use joplin_mcp_rust.Prelude.Int.{ℤ, pos}
use joplin_mcp_rust.Auth.Tokens.{
  Crypto, HmacKey, GeneratedToken, TokenRecord, Tables, row_of, revoke_token,
  insert_generated_token, authenticate_bearer, validate_raw_token, generate_token_for_insert,
  find_by_hashes, validate_hmac_key,
}
use joplin_mcp_rust.Http.Headers.{Headers}
use joplin_mcp_rust.Http.TokenApi.{token_revoke}
use joplin_mcp_rust.Http.TokenApi.Laws.{token_revoke-is_final}
use joplin_mcp_rust.Auth.Tokens.Laws.{IssuedAs, IsUsable, authenticate_bearer-ok}
use joplin_mcp_rust.Auth.Tokens.Steps.{same_tables, then_step, inserted}
use joplin_mcp_rust.Auth.Tokens.Minting.{minted-authenticates}
use joplin_mcp_rust.Auth.Tokens.Revocation.{revoked_forever, revoke_twice}

abbrev demo_crypto : Crypto
demo_crypto = record {
  base64_encode = λ b. b;
  base64_decode = λ b. some b;
  hmac_sha256 = λ key message. message;
}

abbrev bytes_32 : ℕ → List ℕ
bytes_32 n =
    n ∷ n ∷ n ∷ n ∷ n ∷ n ∷ n ∷ n ∷ n ∷ n ∷ n ∷ n ∷ n ∷ n ∷ n ∷ n ∷ n ∷ n ∷ n ∷ n ∷ n ∷ n ∷ n ∷ n
    ∷ n ∷ n ∷ n ∷ n ∷ n ∷ n ∷ n ∷ n ∷ []

abbrev demo_key : HmacKey
demo_key = record { id = "k1"; bytes = bytes_32 3 }

abbrev token_of : ℕ → ℕ → GeneratedToken
token_of id random = record {
  raw_token = chars "mcp_" ++ bytes_32 random;
  insert = record {
    id = id;
    user_id = 1;
    token_hash = record { hmac_key_id = "k1"; bytes = chars "mcp_" ++ bytes_32 random };
    label = "laptop";
    scope = "read";
    expires_at = none;
  };
}

abbrev no_tokens : Tables
no_tokens = record { rows = []; users = λ u. some none }

abbrev one_token : Tables
one_token = record { rows = row_of ((token_of 7 65).insert) (pos 0) ∷ []; users = λ u. some none }

abbrev record_of : ℕ → ℕ → ℤ → TokenRecord
record_of id random at = record {
  row = row_of ((token_of id random).insert) at;
  user_disabled_at = none;
}

minted-authenticates_example :
    authenticate_bearer demo_crypto
      (some (chars "Bearer " ++ (token_of 7 65).raw_token))
      (demo_key ∷ [])
      (pos 5)
      one_token
    ≡ ok (record_of 7 65 (pos 0))
unfolding generate_token_for_insert insert_generated_token find_by_hashes validate_hmac_key
    joplin_mcp_rust.Prelude.bytes
minted-authenticates_example =
    minted-authenticates demo_crypto 1 [] demo_key [] "laptop" "read" none (bytes_32 65) 7
      (token_of 7 65) (pos 0) (pos 5) no_tokens one_token refl refl tt refl tt refl refl refl refl
      refl

authenticate_bearer-ok_example :
    (raw : List ℕ) × (some (chars "Bearer " ++ (token_of 7 65).raw_token)
      ≡ some (chars "Bearer " ++ raw))
    × (validate_raw_token demo_crypto raw ≡ true)
    × Any (IssuedAs demo_crypto one_token raw (record_of 7 65 (pos 0))) (demo_key ∷ [])
    × IsUsable (pos 5) (record_of 7 65 (pos 0))
unfolding authenticate_bearer joplin_mcp_rust.Prelude.strip_prefix joplin_mcp_rust.Prelude.same
    joplin_mcp_rust.Prelude.bytes
authenticate_bearer-ok_example =
    authenticate_bearer-ok demo_crypto (some (chars "Bearer " ++ (token_of 7 65).raw_token))
      (demo_key ∷ []) (pos 5) one_token (record_of 7 65 (pos 0)) refl

abbrev revoked_tables : Tables
revoked_tables = record {
  rows =
      (record (row_of ((token_of 7 65).insert) (pos 0)) {
        revoked_at = some (pos 6);
        revoked_by = some 1;
        revoke_reason = some "client_logout";
      })
      ∷ [];
  users = λ u. some none;
}

abbrev later_tables : Tables
later_tables = record {
  rows =
      (record (row_of ((token_of 7 65).insert) (pos 0)) {
        revoked_at = some (pos 6);
        revoked_by = some 1;
        revoke_reason = some "client_logout";
      })
      ∷ row_of ((token_of 8 66).insert) (pos 9)
      ∷ [];
  users = λ u. some none;
}

-- Another token of the user, minted behind the revocation, is not the revoked one.
revoked_forever_example : (record_of 8 66 (pos 9)).row.id ≢ 7
unfolding revoke_token insert_generated_token authenticate_bearer joplin_mcp_rust.Prelude.same
    joplin_mcp_rust.Prelude.strip_prefix joplin_mcp_rust.Prelude.bytes
revoked_forever_example =
    revoked_forever demo_crypto 7 (some 1) (some "client_logout") (pos 6) one_token later_tables
      (some (chars "Bearer " ++ (token_of 8 66).raw_token)) (demo_key ∷ []) (pos 10)
      (record_of 8 66 (pos 9)) refl
      (then_step same_tables (inserted ((token_of 8 66).insert) (pos 9) later_tables refl)) refl

revoke_twice_example :
    revoke_token 7
      (some 2)
      (some "again")
      (pos 8)
      ((revoke_token 7 (some 1) (some "client_logout") (pos 6) one_token).1)
    ≡ (false, (revoke_token 7 (some 1) (some "client_logout") (pos 6) one_token).1)
revoke_twice_example =
    revoke_twice 7 (some 1) (some 2) (some "client_logout") (some "again") (pos 6) (pos 8) one_token

abbrev bearer : ℕ → Headers
bearer random = record {
  origin = none;
  referer = none;
  authorization = some (some (chars "Bearer mcp_" ++ bytes_32 random));
  accept = none;
  content_type = none;
  mcp_protocol_version = none;
}

token_revoke-is_final_example : (record_of 8 66 (pos 9)).row.id ≢ 7
unfolding token_revoke joplin_mcp_rust.Prelude.strip_prefix joplin_mcp_rust.Prelude.same
    joplin_mcp_rust.Prelude.bytes insert_generated_token
token_revoke-is_final_example =
    token_revoke-is_final demo_crypto (demo_key ∷ []) (demo_key ∷ []) (bearer 65) (bearer 66)
      (pos 6) (pos 10) one_token later_tables (record_of 7 65 (pos 0)) (record_of 8 66 (pos 9)) refl
      (then_step same_tables (inserted ((token_of 8 66).insert) (pos 9) later_tables refl)) refl
