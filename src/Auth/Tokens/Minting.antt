-- ===== src/Auth/Tokens/Minting.antt =====
-- A token that is minted signs its bearer in.
use joplin_mcp_rust.Prelude.{
  both_false, All-append, map-append, ℕ, ◌≡◌, refl, sym, ap, ◌∙◌, true, false, String, List, [],
  ◌∷◌, ◌++◌, map, Option, none, some, ok, ◌==◌, any, subst, All, Option-cases, inl, inr,
  some_injective, ==_iff, chars, is_some_and, bytes, length, eq_refl, strip_prefix-append,
  same_refl,
}
use joplin_mcp_rust.Prelude.Int.{leb_ℤ}
use joplin_mcp_rust.Time.{DateTime}
use joplin_mcp_rust.Auth.Tokens.{
  Crypto, HmacKey, TokenHash, TokenInsert, GeneratedToken, TokenRow, TokenRecord, Tables, find_row,
  validate_hmac_key, find_by_hashes, join, row_of, clashes, insert_generated_token,
  authenticate_bearer, parse_bearer_token, token_hashes_for_keys, generate_raw_token,
  validate_raw_token, token_hash, generate_token_for_insert, raw_token_prefix,
  classify_token_record,
}
use joplin_mcp_rust.Auth.Tokens.Steps.{insert_of}

-- The hash that a key gives a token.
abbrev pub hash_with : Crypto → List ℕ → HmacKey → TokenHash
hash_with c raw key = record { hmac_key_id = key.id; bytes = c.hmac_sha256 key.bytes (bytes raw) }

abbrev pub IsKey : HmacKey → Type 0
IsKey key = validate_hmac_key key.bytes ≡ true

hashes_of_keys :
    (c : Crypto) (raw : List ℕ) (keys : List HmacKey)
    → All IsKey keys
    → token_hashes_for_keys c keys raw ≡ some (map (hash_with c raw) keys)
unfolding token_hashes_for_keys token_hash
hashes_of_keys c raw [] valid = refl
hashes_of_keys c raw (key ∷ keys) (valid, rest) = rw (valid, hashes_of_keys c raw keys rest) refl

find-append :
    (tables : Tables) (hashes more : List TokenHash)
    → find_by_hashes tables hashes ≡ none
    → find_by_hashes tables (hashes ++ more) ≡ find_by_hashes tables more
unfolding find_by_hashes
find-append tables [] more h = refl
find-append tables (hash ∷ hashes) more h = elim (Option-cases (find_row tables hash tables.rows)) [
  | inl absent ↦ rw absent (find-append tables hashes more (rw (find_by_hashes, absent) at h))
  | inr (found, there) ↦ let bad : some found ≡ none = rw (find_by_hashes, there) at h in absurd cc
]

-- The row of a new token is the one that its hash finds.
find_new :
    (tables : Tables) (insert : TokenInsert) (now : DateTime) (token : TokenRecord)
    (rows : List TokenRow)
    → any (clashes insert) rows ≡ false
    → join tables (row_of insert now) ≡ some token
    → find_row tables insert.token_hash (rows ++ (row_of insert now ∷ [])) ≡ some token
find_new tables insert now token [] free joined =
    rw (same_refl insert.token_hash.bytes, eq_refl insert.token_hash.hmac_key_id, joined) refl
find_new tables insert now token (row ∷ rows) free joined =
    let (apart, free_rest) = both_false (clashes insert row) (any (clashes insert) rows) free in
    let (other_id, other_hash) = both_false (row.id == insert.id) _ apart in
    rw other_hash (find_new tables insert now token rows free_rest joined)

generated_is_valid :
    (c : Crypto) (random : List ℕ)
    → c.base64_decode (c.base64_encode random) ≡ some random
    → length random ≡ 32
    → parse_bearer_token c (some (chars "Bearer " ++ generate_raw_token c random))
      ≡ ok (generate_raw_token c random)
unfolding parse_bearer_token generate_raw_token validate_raw_token
generated_is_valid c random decodes long =
    rw
      (
        strip_prefix-append (chars "Bearer ") (raw_token_prefix ++ c.base64_encode random),
        strip_prefix-append raw_token_prefix (c.base64_encode random),
        decodes,
        (==_iff (length random) 32).1 long,
      )
      refl

-- What a minted token is made of.
generated_of :
    (c : Crypto) (user_id : ℕ) (key : HmacKey) (label scope : String) (expires_at : Option DateTime)
    (random : List ℕ) (id : ℕ)
    → IsKey key
    → generate_token_for_insert c user_id key label scope expires_at random id
      ≡ some (record {
        raw_token = generate_raw_token c random;
        insert = record {
          id = id;
          user_id = user_id;
          token_hash = hash_with c (generate_raw_token c random) key;
          label = label;
          scope = scope;
          expires_at = expires_at;
        };
      })
unfolding generate_token_for_insert token_hash
generated_of c user_id key label scope expires_at random id valid = rw valid refl

classify_new :
    (insert : TokenInsert) (minted now : DateTime)
    → is_some_and insert.expires_at (λ e. leb_ℤ e now) ≡ false
    → classify_token_record
        (some (record { row = row_of insert minted; user_disabled_at = none }))
        now
      ≡ ok (record { row = row_of insert minted; user_disabled_at = none })
unfolding classify_token_record
classify_new insert minted now in_time = rw in_time refl

-- The tables find a token that was just put into them under a key of the server, if no hash of the
-- keys in front of that key is in them.
find_minted :
    (c : Crypto) (raw : List ℕ) (earlier : List HmacKey) (key : HmacKey) (others : List HmacKey)
    (insert : TokenInsert) (minted : DateTime) (tables after : Tables)
    → insert.token_hash ≡ hash_with c raw key
    → insert_generated_token insert minted tables ≡ some after
    → tables.users insert.user_id ≡ some none
    → find_by_hashes after (map (hash_with c raw) earlier) ≡ none
    → find_by_hashes after (map (hash_with c raw) (earlier ++ key ∷ others))
      ≡ some (record { row = row_of insert minted; user_disabled_at = none })
unfolding find_by_hashes
find_minted c raw earlier key others insert minted tables after hashed done enabled unknown =
    let (free, known, is_after) = insert_of insert minted tables after done in
    let found : find_row after insert.token_hash after.rows
        ≡ some (record { row = row_of insert minted; user_disabled_at = none }) =
      subst
        (λ t.
          find_row t insert.token_hash t.rows
          ≡ some (record { row = row_of insert minted; user_disabled_at = none }))
        is_after
        (find_new (record tables { rows = tables.rows ++ (row_of insert minted ∷ []) }) insert
          minted _ tables.rows free (rw enabled refl)) in
    rw
      (
        map-append (hash_with c raw) earlier (key ∷ others),
        find-append after (map (hash_with c raw) earlier) (map (hash_with c raw) (key ∷ others))
            unknown,
        sym hashed,
        found,
      )
      refl

-- A token that was minted under a key of the server for a user who is not disabled, and was put into
-- the tables, signs its bearer in until it expires: the authentication returns its row. The random
-- bytes are 32, base64 decodes what it encoded, every key has the right length, and no row holds a
-- hash of the new token under the keys in front of the active one.
pub minted-authenticates :
    (c : Crypto) (user_id : ℕ) (earlier : List HmacKey) (key : HmacKey) (others : List HmacKey)
    (label scope : String) (expires_at : Option DateTime) (random : List ℕ) (id : ℕ)
    (generated : GeneratedToken) (minted now : DateTime) (tables after : Tables)
    → c.base64_decode (c.base64_encode random) ≡ some random
    → length random ≡ 32
    → All IsKey earlier
    → IsKey key
    → All IsKey others
    → generate_token_for_insert c user_id key label scope expires_at random id ≡ some generated
    → insert_generated_token generated.insert minted tables ≡ some after
    → tables.users user_id ≡ some none
    → is_some_and expires_at (λ e. leb_ℤ e now) ≡ false
    → find_by_hashes after (map (hash_with c generated.raw_token) earlier) ≡ none
    → authenticate_bearer c
        (some (chars "Bearer " ++ generated.raw_token))
        (earlier ++ key ∷ others)
        now
        after
      ≡ ok (record { row = row_of generated.insert minted; user_disabled_at = none })
unfolding authenticate_bearer
minted-authenticates c user_id earlier key others label scope expires_at random id generated minted
      now tables after decodes long valid_earlier valid valid_others made done enabled in_time
      unknown =
    let is_generated =
      some_injective
        (sym (generated_of c user_id key label scope expires_at random id valid) ∙ made) in
    let raw = generate_raw_token c random in
    let same_raw : raw ≡ generated.raw_token =
      ap (λ (g : GeneratedToken). g.raw_token) is_generated in
    let same_hash : hash_with c raw key ≡ generated.insert.token_hash =
      ap (λ (g : GeneratedToken). g.insert.token_hash) is_generated in
    let same_user : user_id ≡ generated.insert.user_id =
      ap (λ (g : GeneratedToken). g.insert.user_id) is_generated in
    let same_end : expires_at ≡ generated.insert.expires_at =
      ap (λ (g : GeneratedToken). g.insert.expires_at) is_generated in
    let found =
      find_minted c raw earlier key others generated.insert minted tables after (sym same_hash) done
        (subst (λ u. tables.users u ≡ some none) same_user enabled)
        (subst (λ r. find_by_hashes after (map (hash_with c r) earlier) ≡ none) (sym same_raw)
          unknown) in
    subst
      (λ r.
        authenticate_bearer c (some (chars "Bearer " ++ r)) (earlier ++ key ∷ others) now after
        ≡ ok (record { row = row_of generated.insert minted; user_disabled_at = none }))
      same_raw
      (rw
        (
          authenticate_bearer,
          generated_is_valid c random decodes long,
          hashes_of_keys c raw (earlier ++ key ∷ others)
              (All-append IsKey earlier (key ∷ others) valid_earlier (valid, valid_others)),
          found,
        )
        (classify_new generated.insert minted now
          (subst (λ e. is_some_and e (λ t. leb_ℤ t now) ≡ false) same_end in_time)))
