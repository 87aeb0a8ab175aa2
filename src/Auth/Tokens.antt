-- ===== src/Auth/Tokens.antt =====
-- crates/joplin-mcpd/src/auth/tokens.rs: the token texts, their hashes, and the statements on
-- `joplin_mcp.mcp_tokens`. Texts are lists of code points. Base64 and HMAC-SHA256 are third-party
-- code, the fields of `Crypto`; the random bytes and ids of a new token are arguments. Failures of the
-- database other than a violated constraint are left out.
pub mod Laws
pub mod Steps
pub mod Minting
pub mod Revocation
use joplin_mcp_rust.Prelude.{
  ℕ, ◌==◌, suc, Bool, true, false, not, ◌&&◌, ◌||◌, String, List, [], ◌∷◌, ◌++◌, map, Option, none,
  some, Result, ok, err, ◌>>=◌, ◌>>◌, if◌then◌else◌, str_eq, same, chars, bytes, strip_prefix,
  length, any, is_some, is_none, is_some_and, or_else, map_option, and_then,
}
use joplin_mcp_rust.Prelude.Int.{leb_ℤ, ltb_ℤ, ◌-ℤ◌}
use joplin_mcp_rust.Time.{DateTime, since}

pub record Crypto : Type 0 where
  pub base64_encode : List ℕ → List ℕ
  pub base64_decode : List ℕ → Option (List ℕ)
  pub hmac_sha256 : List ℕ → List ℕ → List ℕ

abbrev pub raw_token_prefix : List ℕ
raw_token_prefix = chars "mcp_"

abbrev pub token_random_bytes : ℕ
token_random_bytes = 32

abbrev pub hmac_key_bytes : ℕ
hmac_key_bytes = 32

pub record TokenHash : Type 0 where
  pub hmac_key_id : String
  pub bytes : List ℕ

pub record HmacKey : Type 0 where
  pub id : String
  pub bytes : List ℕ

pub record TokenInsert : Type 0 where
  pub id : ℕ
  pub user_id : ℕ
  pub token_hash : TokenHash
  pub label : String
  pub scope : String
  pub expires_at : Option DateTime

pub record GeneratedToken : Type 0 where
  pub raw_token : List ℕ
  pub insert : TokenInsert

-- A row of `mcp_tokens`.
pub record TokenRow : Type 0 where
  pub id : ℕ
  pub user_id : ℕ
  pub token_hash : List ℕ
  pub hmac_key_id : String
  pub label : String
  pub scope : String
  pub created_at : DateTime
  pub last_seen_at : Option DateTime
  pub revoked_at : Option DateTime
  pub revoked_by : Option ℕ
  pub revoke_reason : Option String
  pub expires_at : Option DateTime

-- A row joined with `mcp_users`.
pub record TokenRecord : Type 0 where
  pub row : TokenRow
  pub user_disabled_at : Option DateTime

-- The rows of `mcp_tokens`, and `disabled_at` of each user in `mcp_users`.
pub record Tables : Type 0 where
  pub rows : List TokenRow
  pub users : ℕ → Option (Option DateTime)

pub data TokenAuthError : Type 0 where
  missing malformed unknown revoked expired user_disabled : TokenAuthError

unfoldable pub validate_hmac_key : List ℕ → Bool
validate_hmac_key key = length key == hmac_key_bytes

unfoldable pub classify_token_record :
    Option TokenRecord → DateTime → Result TokenAuthError TokenRecord
classify_token_record none now = err unknown
classify_token_record (some token) now =
    if is_some token.row.revoked_at
    then err revoked
    else if is_some_and token.row.expires_at (λ expires_at. leb_ℤ expires_at now)
    then err expired
    else if is_some token.user_disabled_at
    then err user_disabled
    else ok token

-- The join's condition on a candidate and a token.
abbrev pub matches : TokenHash → TokenRow → Bool
matches hash row = same row.token_hash hash.bytes && str_eq row.hmac_key_id hash.hmac_key_id

abbrev pub join : Tables → TokenRow → Option TokenRecord
join tables row =
    map_option (λ disabled_at. record { row = row; user_disabled_at = disabled_at })
      (tables.users row.user_id)

-- The first of the joined rows for one candidate; `token_hash` is UNIQUE.
abbrev pub find_row : Tables → TokenHash → List TokenRow → Option TokenRecord
find_row tables hash [] = none
find_row tables hash (row ∷ rows) =
    let rest = find_row tables hash rows in
    if matches hash row then or_else (join tables row) rest else rest

unfoldable pub find_by_hashes : Tables → List TokenHash → Option TokenRecord
find_by_hashes tables [] = none
find_by_hashes tables (hash ∷ hashes) =
    or_else (find_row tables hash tables.rows) (find_by_hashes tables hashes)

-- An UPDATE: the rows behind it, and whether it met exactly one.
abbrev pub update : (TokenRow → Bool) → (TokenRow → TokenRow) → List TokenRow → List TokenRow
update p f [] = []
update p f (row ∷ rows) = (if p row then f row else row) ∷ update p f rows

abbrev pub count : (TokenRow → Bool) → List TokenRow → ℕ
count p [] = 0
count p (row ∷ rows) = let rest = count p rows in if p row then suc rest else rest

abbrev pub revocable : ℕ → TokenRow → Bool
revocable token_id row = row.id == token_id && is_none row.revoked_at

abbrev pub revoke_row : Option ℕ → Option String → DateTime → TokenRow → TokenRow
revoke_row revoked_by reason now row = record row {
  revoked_at = or_else row.revoked_at (some now);
  revoked_by = or_else row.revoked_by revoked_by;
  revoke_reason = or_else row.revoke_reason reason;
}

unfoldable pub revoke_token : ℕ → Option ℕ → Option String → DateTime → Tables → Bool × Tables
revoke_token token_id revoked_by reason now tables = (
  count (revocable token_id) tables.rows == 1,
  record tables {
    rows = update (revocable token_id) (revoke_row revoked_by reason now) tables.rows;
  },
)

abbrev pub seen_before : Option DateTime → DateTime → Bool
seen_before none stale_before = true
seen_before (some last_seen_at) stale_before = ltb_ℤ last_seen_at stale_before

abbrev pub touchable : ℕ → DateTime → TokenRow → Bool
touchable token_id stale_before row =
    row.id == token_id && is_none row.revoked_at && seen_before row.last_seen_at stale_before

unfoldable pub touch_last_seen_if_stale : ℕ → DateTime → DateTime → Tables → Bool × Tables
unfolding ◌-ℤ◌
touch_last_seen_if_stale token_id now min_interval tables =
    let stale_before = now -ℤ min_interval in
    (
      count (touchable token_id stale_before) tables.rows == 1,
      record tables {
        rows =
            update (touchable token_id stale_before) (λ row. record row { last_seen_at = some now })
              tables.rows;
      },
    )

-- The INSERT of a token: `id` is the primary key, `token_hash` UNIQUE and `user_id` refers to a
-- user; the columns that it does not name are NULL and `created_at` is `now()`.
abbrev pub row_of : TokenInsert → DateTime → TokenRow
row_of token now = record {
  id = token.id;
  user_id = token.user_id;
  token_hash = token.token_hash.bytes;
  hmac_key_id = token.token_hash.hmac_key_id;
  label = token.label;
  scope = token.scope;
  created_at = now;
  last_seen_at = none;
  revoked_at = none;
  revoked_by = none;
  revoke_reason = none;
  expires_at = token.expires_at;
}

abbrev pub clashes : TokenInsert → TokenRow → Bool
clashes token row = row.id == token.id || same row.token_hash token.token_hash.bytes

unfoldable pub insert_generated_token : TokenInsert → DateTime → Tables → Option Tables
insert_generated_token token now tables =
    if any (clashes token) tables.rows || is_none (tables.users token.user_id)
    then none
    else some (record tables { rows = tables.rows ++ (row_of token now ∷ []) })

module _ (c : Crypto) where
  unfoldable pub validate_raw_token : List ℕ → Bool
  validate_raw_token token =
      is_some_and (strip_prefix raw_token_prefix token) (λ body.
        is_some_and (c.base64_decode body) (λ decoded. length decoded == token_random_bytes))

  -- What follows the prefix of the header.
  abbrev pub accept_token : Option (List ℕ) → Result TokenAuthError (List ℕ)
  accept_token none = err malformed
  accept_token (some token) = if validate_raw_token token then ok token else err malformed

  unfoldable pub parse_bearer_token : Option (List ℕ) → Result TokenAuthError (List ℕ)
  unfolding validate_raw_token
  parse_bearer_token none = err missing
  parse_bearer_token (some authorization) =
      accept_token (strip_prefix (chars "Bearer ") authorization)

  unfoldable pub generate_raw_token : List ℕ → List ℕ
  generate_raw_token random = raw_token_prefix ++ c.base64_encode random

  unfoldable pub token_hash : HmacKey → List ℕ → Option TokenHash
  unfolding validate_hmac_key
  token_hash key raw_token =
      if validate_hmac_key key.bytes
      then some (record { hmac_key_id = key.id; bytes = c.hmac_sha256 key.bytes (bytes raw_token) })
      else none

  unfoldable pub token_hashes_for_keys : List HmacKey → List ℕ → Option (List TokenHash)
  unfolding token_hash
  token_hashes_for_keys [] raw_token = some []
  token_hashes_for_keys (key ∷ keys) raw_token =
      let rest = token_hashes_for_keys keys raw_token in
      and_then (token_hash key raw_token) (λ hash. map_option (λ hashes. hash ∷ hashes) rest)

  abbrev pub hashes_or_malformed : Option (List TokenHash) → Result TokenAuthError (List TokenHash)
  hashes_or_malformed none = err malformed
  hashes_or_malformed (some hashes) = ok hashes

  unfoldable pub authenticate_bearer :
      Option (List ℕ) → List HmacKey → DateTime → Tables → Result TokenAuthError TokenRecord
  unfolding parse_bearer_token token_hashes_for_keys find_by_hashes classify_token_record
  authenticate_bearer authorization keys now tables = do
    raw_token ← parse_bearer_token authorization
    hashes ← hashes_or_malformed (token_hashes_for_keys keys raw_token)
    classify_token_record (find_by_hashes tables hashes) now

  -- `generate_token_for_insert`, whose `expect` fails on a key of another length.
  unfoldable pub generate_token_for_insert :
      ℕ → HmacKey → String → String → Option DateTime → List ℕ → ℕ → Option GeneratedToken
  unfolding generate_raw_token token_hash
  generate_token_for_insert user_id key label scope expires_at random id =
      let raw_token = generate_raw_token random in
      map_option
        (λ hash. record {
          raw_token = raw_token;
          insert = record {
            id = id;
            user_id = user_id;
            token_hash = hash;
            label = label;
            scope = scope;
            expires_at = expires_at;
          };
        })
        (token_hash key raw_token)
