-- ===== src/Indexer/Item.antt =====
-- The rows of Joplin's table `items`, of crates/joplin-mcpd/src/indexer/mod.rs, source.rs and
-- parser.rs, and the readers of an item's metadata, of refresh.rs (rebuild.rs and source.rs have the
-- same). A text is the list of its code points; a map is the list of its entries.
use joplin_mcp_rust.Prelude.{
  ℕ, ◌+◌, ◌*◌, ◌-◌, ◌^◌, Bool, false, ◌||◌, not, List, [], ◌∷◌, Option, none, some, leb, ◌==◌,
  if◌then◌else◌, same, trim, chars, is_empty, is_ascii_digit, and_then, map_option, or_else, zero,
  suc,
}
use joplin_mcp_rust.Prelude.Int.{ℤ, pos, negsuc, eq_ℤ}

abbrev pub Str : Type 0
Str = List ℕ

pub data JoplinItemType : Type 0 where
  note folder tag note_tag resource revision : JoplinItemType

-- `item_type as i32`
abbrev pub as_i32 : JoplinItemType → ℕ
as_i32 note = 1
as_i32 folder = 2
as_i32 tag = 5
as_i32 note_tag = 6
as_i32 resource = 9
as_i32 revision = 13

-- `item_type == other`
abbrev pub same_type : JoplinItemType → JoplinItemType → Bool
same_type a b = as_i32 a == as_i32 b

unfoldable pub from_i32 : ℕ → Option JoplinItemType
from_i32 value =
    if value == 1
    then some note
    else if value == 2
    then some folder
    else if value == 5
    then some tag
    else if value == 6
    then some note_tag
    else if value == 9
    then some resource
    else if value == 13
    then some revision
    else none

pub record JoplinItem : Type 0 where
  pub id : Str
  pub owner_id : Str
  pub content : List ℕ
  pub name : Str
  pub mime_type : Str
  pub updated_time : ℤ
  pub created_time : ℤ
  pub jop_id : Str
  pub jop_parent_id : Str
  pub item_type : JoplinItemType
  pub encrypted : Bool

pub record ParsedItem : Type 0 where
  pub title : Str
  pub body : Str
  pub metadata : List (Str × Str)

-- `map.get(key)`
unfoldable pub get : List (Str × Str) → Str → Option Str
get [] key = none
get ((k, v) ∷ rest) key = let found = get rest key in if same k key then some v else found

unfoldable pub empty_to_none : Str → Option Str
empty_to_none value = if is_empty (trim value) then none else some (trim value)

unfoldable pub string_metadata : ParsedItem → Str → Option Str
string_metadata parsed key = and_then (get parsed.metadata key) empty_to_none

-- The digits of a number, read from the left; none when one is no digit.
unfoldable pub digits : ℕ → Str → Option ℕ
digits n [] = some n
digits n (c ∷ s) =
    let rest = digits (10 * n + (c - 48)) s in if is_ascii_digit c then rest else none

abbrev unsigned : Str → Option ℕ
unsigned [] = none
unsigned (c ∷ s) = digits 0 (c ∷ s)

abbrev below : ℕ → Option ℕ → Option ℕ
below bound o = and_then o (λ n. if leb n bound then some n else none)

abbrev minus : ℕ → ℤ
minus zero = pos 0
minus (suc n) = negsuc n

-- `value.parse::<i64>().ok()`: one sign at most, then digits, within the range.
unfoldable pub parse_i64 : Str → Option ℤ
parse_i64 [] = none
parse_i64 (c ∷ s) =
    if c == 45
    then map_option minus (below (2 ^ 63) (unsigned s))
    else if c == 43
    then map_option pos (below (2 ^ 63 - 1) (unsigned s))
    else map_option pos (below (2 ^ 63 - 1) (unsigned (c ∷ s)))

unfoldable pub integer_metadata : ParsedItem → Str → Option ℤ
integer_metadata parsed key = and_then (get parsed.metadata key) parse_i64

unfoldable pub bool_metadata : ParsedItem → Str → Bool
bool_metadata parsed key = elim (get parsed.metadata key) [
  | none ↦ false
  | some value ↦ same value (chars "1") || same value (chars "true")
]

unfoldable pub deleted_time : ParsedItem → Option ℤ
deleted_time parsed =
    and_then (integer_metadata parsed (chars "deleted_time"))
      (λ time. if not (eq_ℤ time (pos 0)) then some time else none)

unfoldable pub parent_id : JoplinItem → ParsedItem → Option Str
parent_id item parsed =
    or_else (string_metadata parsed (chars "parent_id")) (empty_to_none item.jop_parent_id)

unfoldable pub resource_title : JoplinItem → ParsedItem → Str
resource_title item parsed =
    if not (is_empty parsed.title)
    then parsed.title
    else if not (is_empty item.name)
    then item.name
    else item.jop_id
