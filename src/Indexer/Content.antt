-- ===== src/Indexer/Content.antt =====
-- crates/joplin-mcpd/src/indexer/item_content.rs: items that the parser refuses are read from the
-- columns of their row, with what metadata their text holds.
use joplin_mcp_rust.Prelude.{
  ℕ, not, ◌||◌, List, [], ◌∷◌, Option, none, some, ok, err, if◌then◌else◌, ◌==◌, trim, trim_start,
  chars, strip_prefix, is_empty, is_some, all, is_ascii_alphanumeric, suc, zero, ◌/◌, ◌%◌, ◌+◌,
}
use joplin_mcp_rust.Prelude.Int.{ℤ, pos, negsuc}
use joplin_mcp_rust.Indexer.Item.{
  Str, JoplinItem, note, folder, tag, note_tag, resource, revision, as_i32, same_type, ParsedItem,
  get,
}
use joplin_mcp_rust.Indexer.Parser.{Engine, split_once, lines, parse_joplin_item}

-- `number.to_string()`; twenty digits hold every number below 2^64.
unfoldable pub decimal : ℕ → ℕ → Str → Str
decimal zero n behind = behind
decimal (suc fuel) n behind =
    let digit = (48 + n % 10) ∷ behind in
    let more = decimal fuel (n / 10) digit in if n / 10 == 0 then digit else more

abbrev pub decimal_int : ℤ → Str
decimal_int (pos n) = decimal 20 n []
decimal_int (negsuc n) = 45 ∷ decimal 20 (n + 1) []

abbrev loose_line : Str → Option (Str × Str)
loose_line line = elim (split_once 58 line) [
  | none ↦ none
  | some (key, value) ↦
      if is_empty (trim key) || not (all (λ c. is_ascii_alphanumeric c || c == 95) (trim key))
      then none
      else some (trim key, trim value)
]

-- The entries of the lines, a later one before an earlier one, as a map's insertions leave them.
abbrev loose_lines : List Str → List (Str × Str) → List (Str × Str)
loose_lines [] metadata = metadata
loose_lines (line ∷ rest) metadata = elim (loose_line line) [
  | none ↦ loose_lines rest metadata
  | some entry ↦ loose_lines rest (entry ∷ metadata)
]

-- An error of the parser is `none`, a text that is no object `some none`.
unfoldable pub json_metadata : Engine → Str → Option (Option (List (Str × Str)))
json_metadata e raw =
    if is_some (strip_prefix (chars "{") (trim_start raw)) then e.json_object raw else some none

unfoldable pub loose_metadata : Engine → Str → List (Str × Str)
loose_metadata e raw = elim (json_metadata e raw) [
  | none ↦ loose_lines (lines raw) []
  | some none ↦ loose_lines (lines raw) []
  | some (some metadata) ↦ metadata
]

-- `metadata.entry(key).or_insert_with(|| value)`
unfoldable pub or_insert : Str → Str → List (Str × Str) → List (Str × Str)
or_insert key value metadata =
    if is_some (get metadata key) then metadata else (key, value) ∷ metadata

unfoldable pub parsed_from_db_columns : Engine → JoplinItem → Str → ParsedItem
parsed_from_db_columns e item raw =
    let loose = loose_metadata e raw in
    let with_id = or_insert (chars "id") item.jop_id loose in
    let with_type = or_insert (chars "type_") (decimal 20 (as_i32 item.item_type) []) with_id in
    let with_created = or_insert (chars "created_time") (decimal_int item.created_time) with_type in
    let with_updated =
      or_insert (chars "updated_time") (decimal_int item.updated_time) with_created in
    let metadata : List (Str × Str) =
      if not (is_empty (trim item.jop_parent_id))
      then or_insert (chars "parent_id") item.jop_parent_id with_updated
      else with_updated in
    elim item.item_type [
      | note ↦ record { title = item.name; body = raw; metadata = metadata }
      | folder ↦ record { title = item.name; body = []; metadata = metadata }
      | tag ↦ record { title = item.name; body = []; metadata = metadata }
      | resource ↦ record { title = item.name; body = []; metadata = metadata }
      | note_tag ↦ record { title = []; body = []; metadata = metadata }
      | revision ↦ record { title = []; body = []; metadata = metadata }
    ]

unfoldable pub parse_index_item : Engine → JoplinItem → Str → Option ParsedItem
parse_index_item e item raw = elim (parse_joplin_item e raw) [
  | ok parsed ↦ some parsed
  | err problem ↦
      if not (same_type item.item_type revision)
      then some (parsed_from_db_columns e item raw)
      else none
]
