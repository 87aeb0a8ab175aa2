-- ===== src/Indexer/Source.antt =====
-- crates/joplin-mcpd/src/indexer/source.rs: the queries on Joplin's table `items`, and the batches in
-- which an indexer reads what changed. The database answers; a failing query is left out. ORDER BY and the
-- comparisons of a query go by the collation of the database, `collate`, those of Rust by the bytes.
pub mod Laws
use joplin_mcp_rust.Prelude.{
  ℕ, suc, zero, Bool, true, false, not, ◌&&◌, ◌||◌, List, [], ◌∷◌, ◌++◌, Option, none, some, ◌==◌,
  if◌then◌else◌, same, text_ltb, take, length, map, map_option, and_then, is_none, any, chars,
  concat, leb,
}
use joplin_mcp_rust.Prelude.Int.{ℤ, ltb_ℤ, leb_ℤ, eq_ℤ}
use joplin_mcp_rust.Keyset.{filter, sort, batches}
use joplin_mcp_rust.Indexer.Item.{
  Str, JoplinItem, JoplinItemType, ParsedItem, from_i32, as_i32, string_metadata,
}
use joplin_mcp_rust.Indexer.Parser.{Engine}
use joplin_mcp_rust.Indexer.Content.{parse_index_item}
use joplin_mcp_rust.Indexer.Tables.Reconcile.{JoplinItemRef, JoplinNoteTagRef}

abbrev pub joplin_item_batch_size : ℕ
joplin_item_batch_size = 500

-- A row of `items`.
pub record RawJoplinItem : Type 0 where
  pub id : Str
  pub owner_id : Str
  pub content : List ℕ
  pub name : Str
  pub mime_type : Str
  pub updated_time : ℤ
  pub created_time : ℤ
  pub jop_id : Str
  pub jop_parent_id : Str
  pub jop_type : ℕ
  pub jop_encryption_applied : ℕ

pub record JoplinItemCursor : Type 0 where
  pub updated_time : ℤ
  pub id : Str

abbrev pub cursor_of : JoplinItem → JoplinItemCursor
cursor_of item = record { updated_time = item.updated_time; id = item.id }

-- When one id stands before another.
abbrev pub Collation : Type 0
Collation = Str → Str → Bool

-- The order of two places, an older one first.
abbrev pub place_before : Collation → ℤ → Str → ℤ → Str → Bool
place_before collate time id time' id' = ltb_ℤ time time' || (eq_ℤ time' time && collate id id')

unfoldable pub item_is_after_cursor : JoplinItem → JoplinItemCursor → Bool
item_is_after_cursor item cursor =
    place_before text_ltb cursor.updated_time cursor.id item.updated_time item.id

-- `JoplinItem::try_from`, none for a type that it does not know.
abbrev pub with_type : RawJoplinItem → JoplinItemType → JoplinItem
with_type raw item_type = record {
  id = raw.id;
  owner_id = raw.owner_id;
  content = raw.content;
  name = raw.name;
  mime_type = raw.mime_type;
  updated_time = raw.updated_time;
  created_time = raw.created_time;
  jop_id = raw.jop_id;
  jop_parent_id = raw.jop_parent_id;
  item_type = item_type;
  encrypted = not (raw.jop_encryption_applied == 0);
}

unfoldable pub try_from : RawJoplinItem → Option JoplinItem
try_from raw = map_option (with_type raw) (from_i32 raw.jop_type)

-- `rows.into_iter().map(try_from).collect()`: none when one row is refused.
unfoldable pub collect : {A B : Type 0} → (A → Option B) → List A → Option (List B)
collect f [] = some []
collect f (x ∷ xs) = elim (f x) [ none ↦ none | some y ↦ map_option (λ ys. y ∷ ys) (collect f xs) ]

abbrev pub indexed_type : ℕ → Bool
indexed_type n = n == 1 || n == 2 || n == 5 || n == 6 || n == 9

abbrev pub not_before : Option ℤ → ℤ → Bool
not_before none time = true
not_before (some since) time = leb_ℤ since time

abbrev pub raw_before : Collation → RawJoplinItem → RawJoplinItem → Bool
raw_before collate a b = place_before collate a.updated_time a.id b.updated_time b.id

abbrev pub raw_after : Collation → Option JoplinItemCursor → RawJoplinItem → Bool
raw_after collate none raw = true
raw_after collate (some cursor) raw =
    place_before collate cursor.updated_time cursor.id raw.updated_time raw.id

-- The conditions of CHANGED_ITEMS_BATCH_QUERY but the one on the cursor.
abbrev pub changed : Str → Option ℤ → RawJoplinItem → Bool
changed user_id since raw =
    same raw.owner_id user_id && not_before since raw.updated_time && indexed_type raw.jop_type

abbrev pub at_least_one : ℕ → ℕ
at_least_one zero = 1
at_least_one (suc n) = suc n

-- `JoplinDbSource::changed_items_batch`, with CHANGED_ITEMS_BATCH_QUERY.
unfoldable pub changed_items_batch :
    Collation
    → List RawJoplinItem
    → Str
    → Option ℤ
    → Option JoplinItemCursor
    → ℕ
    → Option (List JoplinItem)
changed_items_batch collate items user_id since after limit = collect try_from (
    take (at_least_one limit) (
      sort (raw_before collate)
        (filter (λ raw. changed user_id since raw && raw_after collate after raw) items)))

abbrev pub item_before : JoplinItem → JoplinItem → Bool
item_before a b = place_before text_ltb a.updated_time a.id b.updated_time b.id

abbrev pub retain_after : Option JoplinItemCursor → List JoplinItem → List JoplinItem
retain_after none items = items
retain_after (some after) items = filter (λ item. item_is_after_cursor item after) items

-- The trait's own `changed_items_batch`, over what `changed_items_since` gives.
unfoldable pub default_changed_items_batch :
    List JoplinItem → Option JoplinItemCursor → ℕ → List JoplinItem
default_changed_items_batch items after limit =
    take (at_least_one limit) (retain_after after (sort item_before items))

abbrev pub or_empty : Option (List JoplinItem) → List JoplinItem
or_empty none = []
or_empty (some items) = items

-- The batches that the loops of `changed_items_since` and `apply_incremental_refresh` read. The queries
-- select no row that `try_from` refuses, which `changed_items_batch_lem` shows.
unfoldable pub changed_batches :
    Collation → List RawJoplinItem → Str → Option ℤ → ℕ → Option (List (List JoplinItem))
changed_batches collate items user_id since fuel =
    batches cursor_of
      (λ after.
        or_empty (changed_items_batch collate items user_id since after joplin_item_batch_size))
      joplin_item_batch_size fuel none

-- `JoplinDbSource::changed_items_since`; its rounds are no more than the rows.
unfoldable pub changed_items_since :
    Collation → List RawJoplinItem → Str → Option ℤ → Option (List JoplinItem)
changed_items_since collate items user_id since =
    map_option concat (changed_batches collate items user_id since (suc (length items)))

-- ITEM_BY_ID_QUERY
unfoldable pub item_by_id : List RawJoplinItem → Str → Str → Option (List JoplinItem)
item_by_id items user_id item_id = collect try_from (
    take 1 (
      filter (λ raw. same raw.owner_id user_id && same raw.id item_id && indexed_type raw.jop_type)
        items))

abbrev jop_before : Collation → RawJoplinItem → RawJoplinItem → Bool
jop_before collate a b = collate a.jop_id b.jop_id

-- ACTIVE_ITEM_REFS_QUERY
unfoldable pub active_item_refs : Collation → List RawJoplinItem → Str → Option (List JoplinItemRef)
active_item_refs collate items user_id =
    collect
      (λ raw.
        map_option (λ item_type. record { joplin_id = raw.jop_id; item_type = item_type })
          (from_i32 raw.jop_type))
      (sort (jop_before collate) (
        filter
          (λ raw.
            same raw.owner_id user_id
            && (raw.jop_type == 1 || raw.jop_type == 2 || raw.jop_type == 5 || raw.jop_type == 9))
          items))

abbrev edge_ref : ParsedItem → Option JoplinNoteTagRef
edge_ref parsed = and_then (string_metadata parsed (chars "note_id")) (λ note_id.
    map_option (λ tag_id. record { note_joplin_id = note_id; tag_joplin_id = tag_id })
      (string_metadata parsed (chars "tag_id")))

unfoldable pub active_note_tag_ref : Engine → JoplinItem → Option JoplinNoteTagRef
active_note_tag_ref e item = if item.encrypted then none else elim (e.from_utf8 item.content) [
  | none ↦ none
  | some raw ↦ elim (parse_index_item e item raw) [ none ↦ none | some parsed ↦ edge_ref parsed ]
]

abbrev present : {A : Type 0} → List (Option A) → List A
present [] = []
present (none ∷ rest) = present rest
present (some a ∷ rest) = a ∷ present rest

-- ACTIVE_NOTE_TAG_REFS_QUERY
unfoldable pub active_note_tag_refs :
    Engine → Collation → List RawJoplinItem → Str → Option (List JoplinNoteTagRef)
active_note_tag_refs e collate items user_id =
    map_option (λ rows. present (map (active_note_tag_ref e) rows))
      (collect try_from (
        sort (jop_before collate)
          (filter (λ raw. same raw.owner_id user_id && raw.jop_type == 6) items)))
