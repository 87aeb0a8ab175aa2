-- ===== src/Tools/Ilike.antt =====
-- `escape_ilike_pattern` of crates/joplin-mcpd/src/mcp/tools.rs, and the meaning of the patterns of
-- PostgreSQL's ILIKE with the escape character `!`.
pub mod Laws
use joplin_mcp_rust.Prelude.{
  ℕ, ◌==◌, Bool, true, false, ◌&&◌, ◌||◌, List, [], ◌∷◌, ◌++◌, if◌then◌else◌, is_empty, map,
}

abbrev pub ilike_escape_char : ℕ
ilike_escape_char = b'!'

unfoldable pub escape_ilike_pattern : List ℕ → List ℕ
escape_ilike_pattern [] = []
escape_ilike_pattern (ch ∷ value) =
    let rest = escape_ilike_pattern value in
    if ch == ilike_escape_char || ch == b'%' || ch == b'_'
    then ilike_escape_char ∷ ch ∷ rest
    else ch ∷ rest

-- The characters that `escape_ilike_pattern` escapes.
abbrev pub is_special : ℕ → Bool
is_special ch = ch == ilike_escape_char || ch == b'%' || ch == b'_'

-- The pattern of the fallback: `'%' || escaped || '%'`.
abbrev pub fallback_pattern : List ℕ → List ℕ
fallback_pattern value = b'%' ∷ (escape_ilike_pattern value ++ (b'%' ∷ []))

-- What a pattern means: `%` is any text, `_` any character, and an escaped character itself. A pattern
-- that ends in an escape character is an error of the database, and matches nothing here.
pub data Part : Type 0 where
  any_text any_char bad : Part
  literal : ℕ → Part

abbrev pub part_of : ℕ → Part
part_of c = if c == b'%' then any_text else if c == b'_' then any_char else literal c

unfoldable pub parts : Bool → List ℕ → List Part
parts true [] = bad ∷ []
parts false [] = []
parts true (c ∷ pattern) = literal c ∷ parts false pattern
parts false (c ∷ pattern) =
    let escaped = parts true pattern in
    let plain = parts false pattern in if c == ilike_escape_char then escaped else part_of c ∷ plain

abbrev pub some_suffix : (List ℕ → Bool) → List ℕ → Bool
some_suffix p [] = p []
some_suffix p (c ∷ text) = p (c ∷ text) || some_suffix p text

unfoldable pub matches_parts : List Part → List ℕ → Bool
matches_parts [] text = is_empty text
matches_parts (any_text ∷ ps) text = some_suffix (matches_parts ps) text
matches_parts (bad ∷ ps) text = false
matches_parts (any_char ∷ ps) [] = false
matches_parts (any_char ∷ ps) (c ∷ text) = matches_parts ps text
matches_parts (literal d ∷ ps) [] = false
matches_parts (literal d ∷ ps) (c ∷ text) = d == c && matches_parts ps text

-- `text ILIKE pattern`: both are lowered, and then matched. `lower` is the database's for a character.
unfoldable pub like : (ℕ → ℕ) → List ℕ → List ℕ → Bool
unfolding parts matches_parts
like lower pattern text = matches_parts (parts false (map lower pattern)) (map lower text)
