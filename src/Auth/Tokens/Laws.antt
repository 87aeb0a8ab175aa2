-- ===== src/Auth/Tokens/Laws.antt =====
-- Who an authentication lets in.
use joplin_mcp_rust.Prelude.{
  ℕ, ◌≡◌, sym, ap, ◌∙◌, Bool, true, false, List, [], ◌∷◌, ◌++◌, Option, none, some, ok, err,
  if◌then◌else◌, is_some, subst, Any, Bool-cases, Option-cases, inl, inr, arith, some_injective,
  >>=-eq-ok, chars, strip_prefix, strip_prefix-some, is_some_and,
}
use joplin_mcp_rust.Prelude.Int.{leb_ℤ}
use joplin_mcp_rust.Time.{DateTime}
use joplin_mcp_rust.Auth.Tokens.{
  Crypto, malformed, HmacKey, TokenHash, TokenRow, TokenRecord, Tables, TokenAuthError,
  classify_token_record, find_row, find_by_hashes, join, matches, authenticate_bearer,
  parse_bearer_token, hashes_or_malformed, token_hashes_for_keys, validate_raw_token, token_hash,
  accept_token,
}

-- A record that one of the rows gives, for a candidate that it matches.
abbrev pub Gives : Tables → TokenHash → TokenRecord → TokenRow → Type 0
Gives tables hash token row = (matches hash row ≡ true) × (join tables row ≡ some token)

find_row-Any :
    (tables : Tables) (hash : TokenHash) (token : TokenRecord) (rows : List TokenRow)
    → find_row tables hash rows ≡ some token
    → Any (Gives tables hash token) rows
find_row-Any tables hash token [] h = absurd cc
find_row-Any tables hash token (row ∷ rows) h = elim (Bool-cases (matches hash row)) [
  | inr fails ↦ inr (find_row-Any tables hash token rows (rw fails at h))
  | inl holds ↦ elim (Option-cases (join tables row)) [
    | inl absent ↦ inr (find_row-Any tables hash token rows (rw (holds, absent) at h))
    | inr (found, there) ↦ inl (holds, there ∙ (rw (holds, there) at h))
  ]
]

find_by_hashes-Any :
    (tables : Tables) (token : TokenRecord) (hashes : List TokenHash)
    → find_by_hashes tables hashes ≡ some token
    → Any (λ hash. Any (Gives tables hash token) tables.rows) hashes
unfolding find_by_hashes
find_by_hashes-Any tables token [] h = absurd cc
find_by_hashes-Any tables token (hash ∷ hashes) h =
    elim (Option-cases (find_row tables hash tables.rows)) [
      | inl absent ↦ inr (find_by_hashes-Any tables token hashes (rw (find_by_hashes, absent) at h))
      | inr (found, there) ↦
          inl
            (find_row-Any tables hash token tables.rows (there ∙ (rw (find_by_hashes, there) at h)))
    ]

-- A token that an authentication may return.
abbrev pub IsUsable : DateTime → TokenRecord → Type 0
IsUsable now token =
    (is_some token.row.revoked_at ≡ false)
    × (is_some_and token.row.expires_at (λ expires_at. leb_ℤ expires_at now) ≡ false)
    × (is_some token.user_disabled_at ≡ false)

three_guards :
    (a b c : Bool) (x y z : TokenAuthError) (found token : TokenRecord)
    → (if a then err x else if b then err y else if c then err z else ok found) ≡ ok token
    → (a ≡ false) × (b ≡ false) × (c ≡ false) × (found ≡ token)
three_guards a b c x y z found token h = ground arith

classify-IsUsable :
    (found : Option TokenRecord) (now : DateTime) (token : TokenRecord)
    → classify_token_record found now ≡ ok token
    → (found ≡ some token) × IsUsable now token
unfolding classify_token_record
classify-IsUsable none now token h = absurd cc
classify-IsUsable (some found) now token h =
    let (live, in_time, enabled, is_token) = three_guards _ _ _ _ _ _ found token h in
    (ap (λ t. some t) is_token, subst (IsUsable now) is_token (live, in_time, enabled))

hashes_of :
    (c : Crypto) (found : Option (List TokenHash)) (hashes : List TokenHash)
    → hashes_or_malformed c found ≡ ok hashes
    → found ≡ some hashes
hashes_of c none hashes h = absurd cc
hashes_of c (some found) hashes h = ground arith

find-Any :
    (c : Crypto) (raw : List ℕ) (Q : TokenHash → Type 0) (keys : List HmacKey)
    (hashes : List TokenHash)
    → token_hashes_for_keys c keys raw ≡ some hashes
    → Any Q hashes
    → Any (λ key. (hash : TokenHash) × (token_hash c key raw ≡ some hash) × Q hash) keys
unfolding token_hashes_for_keys
find-Any c raw Q [] hashes h found = absurd (subst (λ hs. Any Q hs) (sym (some_injective h)) found)
find-Any c raw Q (key ∷ keys) hashes h found = elim (Option-cases (token_hash c key raw)) [
  | inl absent ↦ let bad : none ≡ some hashes = rw (token_hashes_for_keys, absent) at h in absurd cc
  | inr (hash, there) ↦ elim (Option-cases (token_hashes_for_keys c keys raw)) [
    | inl none_left ↦
        let bad : none ≡ some hashes = rw (token_hashes_for_keys, there, none_left) at h in
        absurd cc
    | inr (rest, rest_there) ↦
        let is_list : hash ∷ rest ≡ hashes =
          some_injective (rw (token_hashes_for_keys, there, rest_there) at h) in
        elim (subst (λ hs. Any Q hs) (sym is_list) found) [
          | inl here ↦ inl (hash, there, here)
          | inr later ↦ inr (find-Any c raw Q keys rest rest_there later)
        ]
  ]
]

accept_of :
    (c : Crypto) (token raw : List ℕ)
    → accept_token c (some token) ≡ ok raw
    → (token ≡ raw) × (validate_raw_token c raw ≡ true)
accept_of c token raw h = elim (Bool-cases (validate_raw_token c token)) [
  | inl holds ↦
      let is_raw : ok token ≡ ok raw = rw holds at h in
      let same_text : token ≡ raw = cc in (same_text, rw (sym same_text) holds)
  | inr fails ↦ let bad : err malformed ≡ ok raw = rw fails at h in absurd cc
]

pub parse_bearer_token-ok :
    (c : Crypto) (authorization : Option (List ℕ)) (raw : List ℕ)
    → parse_bearer_token c authorization ≡ ok raw
    → (authorization ≡ some (chars "Bearer " ++ raw)) × (validate_raw_token c raw ≡ true)
unfolding parse_bearer_token
parse_bearer_token-ok c none raw h = absurd cc
parse_bearer_token-ok c (some text) raw h =
    elim (Option-cases (strip_prefix (chars "Bearer ") text)) [
      | inl absent ↦
          let bad : err malformed ≡ ok raw = rw (parse_bearer_token, absent) at h in absurd cc
      | inr (token, there) ↦
          let (same_text, valid) = accept_of c token raw (rw (parse_bearer_token, there) at h) in
          (
            ap (λ t. some t)
                (strip_prefix-some (chars "Bearer ") text token there
                  ∙ ap (λ t. chars "Bearer " ++ t) same_text),
            valid,
          )
    ]

-- A key of the server and a row of the table that the presented token stands for.
abbrev pub IssuedAs : Crypto → Tables → List ℕ → TokenRecord → HmacKey → Type 0
IssuedAs c tables raw token key =
    (hash : TokenHash) × (token_hash c key raw ≡ some hash)
    × Any (Gives tables hash token) tables.rows

-- An authentication that succeeds was given `Bearer ` with a well-formed token, whose hash under a
-- key of the server stands in the row that it returns, and that row is neither revoked nor expired
-- and its user is not disabled.
pub authenticate_bearer-ok :
    (c : Crypto) (authorization : Option (List ℕ)) (keys : List HmacKey) (now : DateTime)
    (tables : Tables) (token : TokenRecord)
    → authenticate_bearer c authorization keys now tables ≡ ok token
    → (raw : List ℕ) × (authorization ≡ some (chars "Bearer " ++ raw))
      × (validate_raw_token c raw ≡ true)
      × Any (IssuedAs c tables raw token) keys
      × IsUsable now token
unfolding authenticate_bearer
authenticate_bearer-ok c authorization keys now tables token h =
    let (raw, parsed, h1) = >>=-eq-ok (parse_bearer_token c authorization) _ h in
    let (hashes, hashed, h2) =
      >>=-eq-ok (hashes_or_malformed c (token_hashes_for_keys c keys raw)) _ h1 in
    let (found, usable) = classify-IsUsable (find_by_hashes tables hashes) now token h2 in
    let (text, valid) = parse_bearer_token-ok c authorization raw parsed in
    (
      raw,
      text,
      valid,
      find-Any c raw _ keys hashes (hashes_of c _ hashes hashed)
          (find_by_hashes-Any tables token hashes found),
      usable,
    )
