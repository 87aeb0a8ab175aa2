-- ===== src/Tools/Truncate.antt =====
-- `truncate_text_at_chars` of crates/joplin-mcpd/src/mcp/tools.rs. A text is the list of its code
-- points and an offset counts bytes of its UTF-8 form, as in the source. `none` is the panic of
-- `text[start..end]` on an offset that is no character boundary.
pub mod Laws
use joplin_mcp_rust.Prelude.{
  ℕ, zero, suc, ◌+◌, ◌-◌, Bool, true, false, List, [], ◌∷◌, Option, none, some, leb, ◌==◌,
  if◌then◌else◌, len_utf8, and_then, map_option, unwrap_or,
}

pub record TruncatedText : Type 0 where
  pub value : List ℕ
  pub truncated : Bool
  pub next_offset : Option ℕ

-- `text.len()`
unfoldable pub size : List ℕ → ℕ
size [] = 0
size (c ∷ s) = len_utf8 c + size s

-- `text.get(offset..)` and `text.get(..count)`: none off a character boundary.
unfoldable pub from_offset : ℕ → List ℕ → Option (List ℕ)
from_offset offset [] = if offset == 0 then some [] else none
from_offset offset (c ∷ s) =
    let rest = from_offset (offset - len_utf8 c) s in
    if offset == 0 then some (c ∷ s) else if leb (len_utf8 c) offset then rest else none

unfoldable pub up_to : ℕ → List ℕ → Option (List ℕ)
up_to count [] = if count == 0 then some [] else none
up_to count (c ∷ s) =
    let rest = map_option (λ t. c ∷ t) (up_to (count - len_utf8 c) s) in
    if count == 0 then some [] else if leb (len_utf8 c) count then rest else none

-- `text.get(start..end)`
unfoldable pub slice : List ℕ → ℕ → ℕ → Option (List ℕ)
unfolding from_offset up_to
slice text start end =
    if leb start end then and_then (from_offset start text) (up_to (end - start)) else none

-- The loop over `char_indices`, filtered by the start: the end reached, and where the loop stopped.
unfoldable pub scan : List ℕ → ℕ → ℕ → ℕ → ℕ → ℕ → ℕ × Option ℕ
scan [] offset start_offset max_chars chars end = (end, none)
scan (ch ∷ text) offset start_offset max_chars chars end =
    let next = offset + len_utf8 ch in
    let skipped = scan text next start_offset max_chars chars end in
    let counted = scan text next start_offset max_chars (chars + 1) next in
    if leb start_offset offset
    then if chars == max_chars then (end, some offset) else counted
    else skipped

abbrev finish : List ℕ → ℕ → ℕ × Option ℕ → Option TruncatedText
finish text start_offset (end, some offset) =
    map_option (λ v. record { value = v; truncated = true; next_offset = some offset })
      (slice text start_offset end)
finish text start_offset (end, none) = some (record {
  value = unwrap_or (slice text start_offset end) [];
  truncated = false;
  next_offset = none;
})

unfoldable pub truncate_text_at_chars : List ℕ → ℕ → ℕ → Option TruncatedText
unfolding scan slice
truncate_text_at_chars text start_offset max_chars =
    finish text start_offset (scan text 0 start_offset max_chars 0 start_offset)
