-- ===== src/Tools/Cursor/Laws.antt =====
-- Cursors come back as they were made, and only a signed cursor is accepted.
use joplin_mcp_rust.Prelude.{
  same_refl, same-eq, ℕ, ◌≡◌, ◌≢◌, refl, sym, ap, ◌∙◌, subst, String, List, [], ◌∷◌, ◌++◌, All,
  some, ok, err, ◌==◌, ==_iff, if◌then◌else◌, str_eq, eq_iff, eq_refl, split, cons_first, arith,
  Bool-cases, Option-cases, Result-cases, inl, inr,
}
use joplin_mcp_rust.Tools.Error.{validation}
use joplin_mcp_rust.Tools.Cursor.{
  cursor_prefix, cursor_version, CursorPayload, Codec, sign_cursor_body, encode_cursor,
  check_payload, decode_parts, decode_cursor, decode_body_cursor, body_payload, encode_body_cursor,
}

abbrev pub NoDot : List ℕ → Type 0
NoDot = All (λ c. c ≢ b'.')

-- A part without a dot is the first part of what follows.
split-part : (s t : List ℕ) → NoDot s → split b'.' (s ++ (b'.' ∷ t)) ≡ s ∷ split b'.' t
unfolding split
split-part [] t h = refl
split-part (c ∷ s) t h = ground (arith, split-part s t h.1)

split-last : (s : List ℕ) → NoDot s → split b'.' s ≡ s ∷ []
unfolding split
split-last [] h = refl
split-last (c ∷ s) h = ground (arith, split-last s h.1)

-- The inverse of `split`.
join : List (List ℕ) → List ℕ
join [] = []
join (part ∷ []) = part
join (part ∷ next ∷ parts) = part ++ (b'.' ∷ join (next ∷ parts))

join-cons_first : (c : ℕ) (parts : List (List ℕ)) → join (cons_first c parts) ≡ c ∷ join parts
unfolding join
join-cons_first c [] = refl
join-cons_first c (part ∷ []) = refl
join-cons_first c (part ∷ next ∷ parts) = refl

join-nil : (parts : List (List ℕ)) → parts ≢ [] → join ([] ∷ parts) ≡ b'.' ∷ join parts
unfolding join
join-nil [] h = absurd (h refl)
join-nil (part ∷ parts) h = refl

split-ne-nil : (s : List ℕ) → split b'.' s ≢ []
unfolding split
split-ne-nil [] h = cc
split-ne-nil (c ∷ s) h = ground (arith, split-ne-nil s)

join-split : (s : List ℕ) → join (split b'.' s) ≡ s
unfolding split
join-split [] = unfold join in refl
join-split (c ∷ s) = elim (Bool-cases (c == b'.')) [
  | inl dot ↦
      let is_dot : c ≡ b'.' = (==_iff c b'.').0 dot in
      rw (dot, split)
        (join-nil (split b'.' s) (split-ne-nil s)
          ∙ ap (λ t. b'.' ∷ t) (join-split s)
          ∙ ap (λ d. d ∷ s) (sym is_dot))
  | inr other ↦
      rw (other, split) (join-cons_first c (split b'.' s) ∙ ap (λ t. c ∷ t) (join-split s))
]

module _ (c : Codec) where
  sign-NoDot :
      ((b : List ℕ) → NoDot (c.base64_encode b))
      → (body key : List ℕ) {signature : List ℕ} → sign_cursor_body c body key ≡ ok signature
      → NoDot signature
  unfolding sign_cursor_body
  sign-NoDot no_dot body key h = elim (Option-cases (c.hmac key body)) [
    | inl refused ↦ ground arith
    | inr (mac, e) ↦
        let same_text : c.base64_encode mac ≡ _ = ground arith in subst NoDot same_text (no_dot mac)
  ]

  -- A cursor that `encode_cursor` made is decoded to its payload, for the tool and the filters in
  -- the payload and the same key. It needs that base64 has no dot and decodes what it encodes, and
  -- that serde_json reads back the bytes that it wrote for this payload.
  pub decode_cursor-encode_cursor :
      ((b : List ℕ) → NoDot (c.base64_encode b))
      → ((b : List ℕ) → c.base64_decode (c.base64_encode b) ≡ some b)
      → (payload : CursorPayload) (key : List ℕ) {written cursor : List ℕ}
      → c.to_vec payload ≡ some written
      → c.from_slice written ≡ some payload
      → encode_cursor c payload key ≡ ok cursor
      → decode_cursor c cursor key payload.tool payload.filter_hash ≡ ok payload
  unfolding encode_cursor decode_cursor decode_parts check_payload
  decode_cursor-encode_cursor no_dot decodes payload key {written} {cursor} writes reads h =
      let body = c.base64_encode written in
      elim (Result-cases (sign_cursor_body c body key)) [
        | inr (e, refused) ↦ ground arith
        | inl (signature, signed) ↦
            let made : cursor_prefix ++ (b'.' ∷ (body ++ (b'.' ∷ signature))) ≡ cursor =
              ground arith in
            let parts : split b'.' cursor ≡ cursor_prefix ∷ body ∷ signature ∷ [] = rw (
              ← made,
              split-part cursor_prefix (body ++ (b'.' ∷ signature)) (omega arith),
              split-part body signature (no_dot written),
              split-last signature (sign-NoDot no_dot body key signed),
            ) in
            rw (parts, decode_cursor)
              (ground (
                arith,
                same_refl cursor_prefix,
                same_refl signature,
                decodes written,
                eq_refl payload.tool,
                eq_refl payload.filter_hash,
              ))
      ]

  -- What an accepted cursor is: prefix, body and the body's signature under the key, joined by
  -- dots, where the body holds a payload of this version for this tool and these filters.
  pub record IsSigned (cursor key : List ℕ) (tool filters : String) (payload : CursorPayload)
      : Type 0 where
    pub body : List ℕ
    pub mac : List ℕ
    pub written : List ℕ
    pub shape : cursor ≡ cursor_prefix ++ (b'.' ∷ (body ++ (b'.' ∷ c.base64_encode mac)))
    pub signed : c.hmac key body ≡ some mac
    pub decoded : c.base64_decode body ≡ some written
    pub read : c.from_slice written ≡ some payload
    pub version : payload.version ≡ cursor_version
    pub tool_matches : payload.tool ≡ tool
    pub filters_match : payload.filter_hash ≡ filters

  decode_parts-IsSigned :
      (parts : List (List ℕ)) (cursor key : List ℕ) (tool filters : String)
      (payload : CursorPayload)
      → join parts ≡ cursor
      → decode_parts c parts key tool filters ≡ ok payload
      → IsSigned cursor key tool filters payload
  unfolding decode_parts sign_cursor_body check_payload join
  decode_parts-IsSigned (prefix ∷ body ∷ signature ∷ []) cursor key tool filters payload joined h =
      elim (Option-cases (c.hmac key body)) [
        | inl refused ↦ ground arith
        | inr (mac, signed) ↦ elim (Option-cases (c.base64_decode body)) [
          | inl bad ↦ ground arith
          | inr (written, decoded) ↦ elim (Option-cases (c.from_slice written)) [
            | inl bad ↦ ground arith
            | inr (found, read) ↦
                let is_found : found ≡ payload = ground arith in
                let is_prefix : prefix ≡ cursor_prefix =
                  same-eq prefix cursor_prefix (ground arith) in
                let is_signature : signature ≡ c.base64_encode mac =
                  same-eq signature (c.base64_encode mac) (ground arith) in
                record {
                  body = body;
                  mac = mac;
                  written = written;
                  shape = sym joined ∙ rw (is_prefix, is_signature);
                  signed = signed;
                  decoded = decoded;
                  read = read ∙ ap some is_found;
                  version = ground arith;
                  tool_matches = (eq_iff payload.tool tool).0 (ground arith);
                  filters_match = (eq_iff payload.filter_hash filters).0 (ground arith);
                }
          ]
        ]
      ]
  decode_parts-IsSigned [] cursor key tool filters payload joined h = cc
  decode_parts-IsSigned (p ∷ []) cursor key tool filters payload joined h = cc
  decode_parts-IsSigned (p ∷ b ∷ []) cursor key tool filters payload joined h = cc
  decode_parts-IsSigned (p ∷ b ∷ s ∷ more ∷ rest) cursor key tool filters payload joined h = cc

  -- A cursor that `decode_cursor` accepts carries the signature of its body under the key, and its
  -- payload has this version, the expected tool and the expected filters.
  pub decode_cursor-IsSigned :
      (cursor key : List ℕ) (tool filters : String) (payload : CursorPayload)
      → decode_cursor c cursor key tool filters ≡ ok payload
      → IsSigned cursor key tool filters payload
  unfolding decode_cursor
  decode_cursor-IsSigned cursor key tool filters payload h =
      decode_parts-IsSigned (split b'.' cursor) cursor key tool filters payload (join-split cursor)
        h

  -- A body cursor of a note is read back as its offset while the note has the version for which it
  -- was made, and is refused as stale at any other version. Base64 has no dot and decodes what it
  -- encodes, and serde_json reads back the bytes that it wrote for the payload.
  pub decode_body_cursor-encode_body_cursor :
      ((b : List ℕ) → NoDot (c.base64_encode b))
      → ((b : List ℕ) → c.base64_decode (c.base64_encode b) ≡ some b)
      → (note version : String) (offset : ℕ) (key : List ℕ) {written cursor : List ℕ}
      → c.to_vec (body_payload c note version offset) ≡ some written
      → c.from_slice written ≡ some (body_payload c note version offset)
      → encode_body_cursor c note version offset key ≡ ok cursor
      → (now : String)
      → decode_body_cursor c cursor key note now
        ≡ (if str_eq version now then ok offset else err (validation "body cursor is stale"))
  unfolding encode_body_cursor decode_body_cursor
  decode_body_cursor-encode_body_cursor no_dot decodes note version offset key writes reads h now =
      rw
        (
          decode_cursor-encode_cursor no_dot decodes (body_payload c note version offset) key writes
              reads h,
          decode_body_cursor,
        )
        (ground (arith, eq_refl note))
