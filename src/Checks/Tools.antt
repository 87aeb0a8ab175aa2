-- ===== src/Checks/Tools.antt =====
-- Inputs, texts and cursors of the tools.
use joplin_mcp_rust.Prelude.{
  ℕ, ◌+◌, ◌-◌, ◌≤◌, ◌≡◌, ◌≢◌, ◌↔◌, refl, ap, String, List, [], ◌∷◌, map, Option, none, some, ok,
  err, ◌>>=◌, concat, All, arith, chars, ◌++◌, if◌then◌else◌, leb, ◌&&◌,
}
use joplin_mcp_rust.Prelude.Int.{pos}
use joplin_mcp_rust.Json.{
  Value, Members, string, number, object, pos_int, obj, members, as_i64, get,
}
use joplin_mcp_rust.Tools.Error.{validation}
use joplin_mcp_rust.Tools.Schema.{limit_schema}
use joplin_mcp_rust.Tools.Validate.{validate_against_schema, validate_tool_input}
use joplin_mcp_rust.Tools.Validate.Conforms.{ConformsTo}
use joplin_mcp_rust.Tools.Validate.Laws.{validate-ConformsTo_iff, validate_tool_input-limit}
use joplin_mcp_rust.Prelude.{true}
use joplin_mcp_rust.Tools.Ilike.{like, fallback_pattern}
use joplin_mcp_rust.Tools.Ilike.Laws.{KeepsSpecial, fallback_pattern-like_iff}
use joplin_mcp_rust.Tools.Truncate.{truncate_text_at_chars, size}
use joplin_mcp_rust.Tools.Truncate.Laws.{page, pages, truncate_text_at_chars-page, pages-concat}
use joplin_mcp_rust.Tools.Cursor.{
  Codec, CursorPayload, decode_cursor, encode_cursor, decode_body_cursor, encode_body_cursor,
  body_payload,
}
use joplin_mcp_rust.Tools.Cursor.Laws.{
  NoDot, IsSigned, decode_cursor-encode_cursor, decode_cursor-IsSigned,
  decode_body_cursor-encode_body_cursor,
}
use joplin_mcp_rust.Tools.Cursor.Values.{
  full_text, search_cursor_values, search_payload, time_payload, encode_search_cursor,
}
use joplin_mcp_rust.Tools.Cursor.Values.Laws.{found_at, search_cursor-encode_search_cursor}

abbrev demo_schema : Value
demo_schema = obj (("properties", obj (("limit", limit_schema 1 100 50) ∷ [])) ∷ [])

abbrev demo_fields : Members
demo_fields = members (("limit", number (pos_int 5)) ∷ [])

validate-ConformsTo_iff_example :
    (validate_against_schema "list_notes" (object demo_fields) demo_schema ≡ ok tt)
    ↔ ConformsTo demo_schema demo_fields
validate-ConformsTo_iff_example = validate-ConformsTo_iff "list_notes" demo_fields demo_schema

validate_tool_input-limit_example :
    (n : ℕ) × (as_i64 (number (pos_int 5)) ≡ some (pos n)) × (1 ≤ n) × (n ≤ 100)
unfolding validate_tool_input get validate_against_schema joplin_mcp_rust.Json.as_object
    joplin_mcp_rust.Tools.Validate.reject_unknown_fields
    joplin_mcp_rust.Tools.Validate.require_fields joplin_mcp_rust.Tools.Validate.validate_members
    joplin_mcp_rust.Tools.Validate.validate_property joplin_mcp_rust.Tools.Validate.by_type
    joplin_mcp_rust.Json.as_str joplin_mcp_rust.Tools.Validate.validate_integer as_i64
validate_tool_input-limit_example =
    validate_tool_input-limit "list_notes" (object demo_fields) (number (pos_int 5)) refl refl

-- "aé€" and "𝄞b", with characters of one to four bytes.
truncate_text_at_chars-page_example :
    truncate_text_at_chars
      ((97 ∷ 233 ∷ 8364 ∷ []) ++ (119070 ∷ 98 ∷ []))
      (size (97 ∷ 233 ∷ 8364 ∷ []))
      1
    ≡ some (page (97 ∷ 233 ∷ 8364 ∷ []) (119070 ∷ 98 ∷ []) 1)
truncate_text_at_chars-page_example =
    truncate_text_at_chars-page (97 ∷ 233 ∷ 8364 ∷ []) (119070 ∷ 98 ∷ []) 1

pages-concat_example :
    (ps : List (List ℕ)) × (pages 6 (97 ∷ 233 ∷ 8364 ∷ 119070 ∷ 98 ∷ []) 0 2 ≡ some ps)
    × (concat ps ≡ 97 ∷ 233 ∷ 8364 ∷ 119070 ∷ 98 ∷ [])
pages-concat_example = pages-concat (97 ∷ 233 ∷ 8364 ∷ 119070 ∷ 98 ∷ []) 2 (omega arith)

-- A codec that knows one payload.
abbrev codec_of : CursorPayload → Codec
codec_of payload = record {
  to_vec = λ p. some (1 ∷ []);
  from_slice = λ b. some payload;
  value_to_vec = λ v. 7 ∷ [];
  base64_encode = λ b. map (λ n. n + 100) b;
  base64_decode = λ b. some (map (λ n. n - 100) b);
  base64_text = λ b. "h";
  hmac = λ key body. some (key ++ body);
  sha256 = λ b. b;
}

demo-NoDot : (b : List ℕ) → NoDot (map (λ n. n + 100) b)
demo-NoDot [] = tt
demo-NoDot (n ∷ b) = (λ e. omega arith, demo-NoDot b)

demo_decodes : (b : List ℕ) → map (λ n. n - 100) (map (λ n. n + 100) b) ≡ b
demo_decodes [] = refl
demo_decodes (n ∷ b) =
    let head : n + 100 - 100 ≡ n = omega arith in let rest = demo_decodes b in rw (head, rest) refl

demo_reads : (b : List ℕ) → some (map (λ n. n - 100) (map (λ n. n + 100) b)) ≡ some b
demo_reads b = ap (λ t. some t) (demo_decodes b)

abbrev demo_key : List ℕ
demo_key = 1 ∷ 2 ∷ []

abbrev demo_cursor : List ℕ
demo_cursor = chars "jmc1" ++ (46 ∷ 101 ∷ 46 ∷ 101 ∷ 102 ∷ 201 ∷ [])

abbrev demo_payload : CursorPayload
demo_payload = time_payload "list_notes" "h" (pos 12) "note"

decode_cursor-encode_cursor_example :
    decode_cursor (codec_of demo_payload) demo_cursor demo_key "list_notes" "h" ≡ ok demo_payload
unfolding encode_cursor joplin_mcp_rust.Tools.Cursor.sign_cursor_body
decode_cursor-encode_cursor_example =
    decode_cursor-encode_cursor (codec_of demo_payload) demo-NoDot demo_reads demo_payload demo_key
      refl refl refl

decode_cursor-IsSigned_example :
    IsSigned (codec_of demo_payload) demo_cursor demo_key "list_notes" "h" demo_payload
unfolding decode_cursor joplin_mcp_rust.Tools.Cursor.decode_parts joplin_mcp_rust.Prelude.split
    joplin_mcp_rust.Prelude.same joplin_mcp_rust.Tools.Cursor.sign_cursor_body
    joplin_mcp_rust.Tools.Cursor.check_payload
decode_cursor-IsSigned_example =
    decode_cursor-IsSigned (codec_of demo_payload) demo_cursor demo_key "list_notes" "h"
      demo_payload refl

abbrev body_codec : Codec
body_codec = codec_of (body_payload (codec_of demo_payload) "note" "v1" 40)

decode_body_cursor-encode_body_cursor_example :
    decode_body_cursor body_codec demo_cursor demo_key "note" "v2"
    ≡ err (validation "body cursor is stale")
unfolding encode_body_cursor joplin_mcp_rust.Tools.Cursor.filter_hash encode_cursor
    joplin_mcp_rust.Tools.Cursor.sign_cursor_body
decode_body_cursor-encode_body_cursor_example =
    decode_body_cursor-encode_body_cursor body_codec demo-NoDot demo_reads "note" "v1" 40 demo_key
      refl refl refl "v2"

abbrev search_codec : Codec
search_codec = codec_of (search_payload (found_at (pos 3) none "note" full_text) "h")

search_cursor-encode_search_cursor_example :
    (decode_cursor search_codec demo_cursor demo_key "search_notes" "h" >>= search_cursor_values)
    ≡ ok (found_at (pos 3) none "note" full_text)
unfolding encode_search_cursor joplin_mcp_rust.Tools.Cursor.sign_cursor_body
search_cursor-encode_search_cursor_example =
    search_cursor-encode_search_cursor search_codec demo-NoDot demo_reads (pos 3) none "note"
      full_text "h" demo_key refl refl refl refl refl

-- Lower case of ASCII.
abbrev ascii_lower : ℕ → ℕ
ascii_lower c = if leb b'A' c && leb c b'Z' then c + 32 else c

ascii_lower-KeepsSpecial : KeepsSpecial ascii_lower
ascii_lower-KeepsSpecial c = ground arith

fallback_pattern-like_iff_example :
    (like ascii_lower (fallback_pattern (chars "50%_Off")) (chars "at 50%_OFF!") ≡ true) ↔ (
      (before after : List ℕ) × (map ascii_lower (chars "at 50%_OFF!")
        ≡ before ++ (map ascii_lower (chars "50%_Off") ++ after)))
fallback_pattern-like_iff_example =
    fallback_pattern-like_iff ascii_lower (chars "50%_Off") (chars "at 50%_OFF!")
      ascii_lower-KeepsSpecial
