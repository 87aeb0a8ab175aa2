-- ===== src/Indexer/Parser.antt =====
-- crates/joplin-mcpd/src/indexer/parser.rs and item_content.rs: a serialized item is its title, its body
-- and a footer of `key: value` lines. The crates regex and serde_json are third-party code: `Engine`
-- holds what the code asks of them.
use joplin_mcp_rust.Prelude.{
  ℕ, Bool, false, not, ◌&&◌, ◌||◌, List, [], ◌∷◌, ◌++◌, Option, none, some, Result, ok, err, ◌>>=◌,
  if◌then◌else◌, ◌==◌, same, trim, chars, split, is_empty, is_some, any, or_else, unwrap_or,
  text_ltb,
}
use joplin_mcp_rust.Indexer.Item.{Str, ParsedItem, get}
use mathlib.Core.List.{reverse}

pub data ParseItemError : Type 0 where
  missing_metadata_footer : ParseItemError
  missing_title : ParseItemError
  invalid_metadata_line : ParseItemError
  duplicated_metadata_key : Str → ParseItemError
  missing_required_metadata_key : Str → ParseItemError

-- `id_re` and `footer_line_re` are the `is_match` of ID_RE and FOOTER_LINE_RE, `resource_captures`
-- the groups 1 and 2 of the matches of RESOURCE_RE, `json_object` what `serde_json::from_str` reads:
-- an error, none for a value that is no object, or the entries with their values' texts.
pub record Engine : Type 0 where
  pub id_re : Str → Bool
  pub footer_line_re : Str → Bool
  pub resource_captures : Str → List (Option Str × Option Str)
  pub json_object : Str → Option (Option (List (Str × Str)))
  pub from_utf8 : List ℕ → Option Str

abbrev pub required_keys : List Str
required_keys = chars "id" ∷ chars "type_" ∷ chars "created_time" ∷ chars "updated_time" ∷ []

-- `keys.contains(key)`
abbrev pub contains : List Str → Str → Bool
contains keys key = any (λ k. same k key) keys

-- `line.split_once(sep)`
unfoldable pub split_once : ℕ → Str → Option (Str × Str)
split_once sep [] = none
split_once sep (c ∷ s) =
    let rest = split_once sep s in
    if c == sep
    then some ([], s)
    else elim rest [ none ↦ none | some (before, behind) ↦ some (c ∷ before, behind) ]

abbrev colon : ℕ
colon = 58

-- The last line of `lines` without its line feed; a carriage return before a line feed goes too.
abbrev drop_carriage_return : Str → Str
drop_carriage_return line = elim (reverse line) [
  | [] ↦ []
  | c ∷ s ↦ if c == 13 then reverse s else line
]

abbrev drop_last_empty : List Str → List Str
drop_last_empty [] = []
drop_last_empty (line ∷ []) = if is_empty line then [] else line ∷ []
drop_last_empty (line ∷ next ∷ rest) = drop_carriage_return line ∷ drop_last_empty (next ∷ rest)

-- `raw.lines()`
unfoldable pub lines : Str → List Str
lines raw = drop_last_empty (split 10 raw)

-- The keys that a footer's lines insert, in order, with the checks on each line.
unfoldable pub footer_keys : (Str → Bool) → List Str → List Str → Result ParseItemError (List Str)
footer_keys footer_line_re [] keys = ok keys
footer_keys footer_line_re (line ∷ rest) keys =
    let trimmed = trim line in
    let key : Option Str = elim (split_once colon trimmed) [
      | none ↦ none
      | some (k, v) ↦ some (trim k)
    ] in
    let skip = is_empty trimmed in
    let valid = footer_line_re trimmed in
    let duplicated : Bool = elim key [ none ↦ false | some k ↦ contains keys k ] in
    let next : List Str = elim key [
      | none ↦ keys
      | some k ↦ if skip then keys else keys ++ (k ∷ [])
    ] in
    let later = footer_keys footer_line_re rest next in
    if skip then later else if not valid then err invalid_metadata_line else elim key [
      | none ↦ err invalid_metadata_line
      | some k ↦ if duplicated then err (duplicated_metadata_key k) else later
    ]

unfoldable pub require_keys : List Str → List Str → Result ParseItemError (Unit {0})
require_keys [] keys = ok tt
require_keys (key ∷ rest) keys =
    let later = require_keys rest keys in
    if not (contains keys key) then err (missing_required_metadata_key key) else later

unfoldable pub validate_metadata_footer : (Str → Bool) → List Str → Result ParseItemError (Unit {0})
validate_metadata_footer footer_line_re [] = err missing_metadata_footer
validate_metadata_footer footer_line_re (line ∷ rest) = do
  keys ← footer_keys footer_line_re (line ∷ rest) []
  require_keys required_keys keys

-- The keys of the lines that have one.
abbrev keys_of : List Str → List Str
keys_of [] = []
keys_of (line ∷ rest) = elim (split_once colon (trim line)) [
  | none ↦ keys_of rest
  | some (k, v) ↦ trim k ∷ keys_of rest
]

-- The scan upwards from a candidate: `above` has the nearest line first.
unfoldable pub adjacent_duplicate : List Str → List Str → Bool
adjacent_duplicate [] footer = false
adjacent_duplicate (line ∷ above) footer =
    let trimmed = trim line in
    let later = adjacent_duplicate above footer in
    if is_empty trimmed then false else elim (split_once colon trimmed) [
      | none ↦ false
      | some (k, v) ↦ (contains required_keys (trim k) && contains footer (trim k)) || later
    ]

unfoldable pub has_adjacent_required_key_duplicate : List Str → List Str → Bool
has_adjacent_required_key_duplicate above candidate = adjacent_duplicate above (keys_of candidate)

-- What the search does at a line: go on with an error, or stop.
abbrev judge :
    Engine → Str → List Str → List Str → Option ParseItemError → Option (Option ParseItemError)
judge e line above candidate footer_error =
    if not (e.id_re (trim line))
    then some footer_error
    else elim (validate_metadata_footer e.footer_line_re candidate) [
      | ok done ↦
          if not (has_adjacent_required_key_duplicate above candidate)
          then none
          else some (some (duplicated_metadata_key (chars "required footer key")))
      | err problem ↦ some (some problem)
    ]

-- The lines before the footer and the footer; the search goes up from the last line, whose lines above
-- come reversed.
unfoldable pub find_footer :
    Engine
    → List Str
    → List Str
    → Option ParseItemError
    → Result ParseItemError (List Str × List Str)
find_footer e [] below footer_error = err (unwrap_or footer_error missing_metadata_footer)
find_footer e (line ∷ above) below footer_error =
    let verdict = judge e line above (line ∷ below) footer_error in
    let later = find_footer e above (line ∷ below) (unwrap_or verdict none) in
    if is_some verdict then later else ok (reverse above, line ∷ below)

-- The first line that is not blank, and those behind it.
unfoldable pub title_line : List Str → Option (Str × List Str)
title_line [] = none
title_line (line ∷ rest) =
    let later = title_line rest in if not (is_empty (trim line)) then some (line, rest) else later

-- `lines.join("\n")`
unfoldable pub join_lines : List Str → Str
join_lines [] = []
join_lines (line ∷ []) = line
join_lines (line ∷ next ∷ rest) = line ++ (10 ∷ join_lines (next ∷ rest))

-- The entries of the footer, behind those read before.
unfoldable pub read_metadata :
    List Str → List (Str × Str) → Result ParseItemError (List (Str × Str))
read_metadata [] metadata = ok metadata
read_metadata (line ∷ rest) metadata =
    let entry = split_once colon line in
    let skip = is_empty (trim line) in
    let next : List (Str × Str) = elim entry [
      | none ↦ metadata
      | some (k, v) ↦ if skip then metadata else metadata ++ ((trim k, trim v) ∷ [])
    ] in
    let later = read_metadata rest next in
    if skip then later else elim entry [
      | none ↦ err invalid_metadata_line
      | some (k, v) ↦
          if is_some (get metadata (trim k)) then err (duplicated_metadata_key (trim k)) else later
    ]

unfoldable pub parse_joplin_item : Engine → Str → Result ParseItemError ParsedItem
parse_joplin_item e raw = do
  found ← find_footer e (reverse (lines raw)) [] none
  titled ← elim (title_line found.0) [ none ↦ err missing_title | some t ↦ ok t ]
  metadata ← read_metadata found.1 []
  ok (record { title = trim titled.0; body = trim (join_lines titled.1); metadata = metadata })

-- A `BTreeSet` of texts, in order.
unfoldable pub insert_text : Str → List Str → List Str
insert_text s [] = s ∷ []
insert_text s (t ∷ ts) =
    let later = insert_text s ts in
    if text_ltb s t then s ∷ t ∷ ts else if text_ltb t s then t ∷ later else t ∷ ts

abbrev collect_refs : List (Option Str × Option Str) → List Str → List Str
collect_refs [] refs = refs
collect_refs ((first, second) ∷ rest) refs = elim (or_else first second) [
  | none ↦ collect_refs rest refs
  | some id ↦ collect_refs rest (insert_text id refs)
]

unfoldable pub extract_resource_refs : Engine → Str → List Str
extract_resource_refs e body = collect_refs (e.resource_captures body) []
