-- ===== src/Indexer/Rows/Laws.antt =====
-- Where the rows of a batch come from, and that every item of it is accounted for.
use joplin_mcp_rust.Prelude.{
  ℕ, suc, ◌+◌, ◌≡◌, ◌⊎◌, refl, sym, ◌∙◌, ap, Bool, true, false, not, List, [], ◌∷◌, none, some,
  same, is_some, ◌||◌, ◌&&◌, subst, length, All, Any, All-append, arith, Option-cases, inl, inr,
  some_injective, length-append, if◌then◌else◌,
}
use joplin_mcp_rust.Keyset.{weaken}
use joplin_mcp_rust.Indexer.Item.{
  Str, JoplinItem, JoplinItemType, note, folder, tag, note_tag, resource, revision, same_type,
  ParsedItem, deleted_time,
}
use joplin_mcp_rust.Indexer.Parser.{Engine}
use joplin_mcp_rust.Indexer.Content.{parse_index_item}
use joplin_mcp_rust.Indexer.Tables.{ActiveRow, DeletedRow}
use joplin_mcp_rust.Indexer.Rows.{
  IncrementalRows, default_rows, record_seen, active_as, active_row, Outcome, wrong_owner,
  is_encrypted, malformed, is_deleted, is_active, row_of, read_item, deleted_of, outcome,
  add_outcome, build_from, build_incremental_rows,
}

-- The items that the rows and the counters stand for.
abbrev pub accounted : IncrementalRows → ℕ
accounted rows =
    length rows.active
    + length rows.deleted
    + rows.skipped_encrypted
    + rows.skipped_malformed
    + rows.skipped_wrong_owner

accounted_one :
    (o : Outcome) (rows : IncrementalRows) → accounted (add_outcome o rows) ≡ suc (accounted rows)
accounted_one wrong_owner rows = omega arith
accounted_one is_encrypted rows = omega arith
accounted_one malformed rows = omega arith
accounted_one (is_deleted row) rows = omega (arith, length-append rows.deleted (row ∷ []))
accounted_one (is_active row) rows = omega (arith, length-append rows.active (row ∷ []))

accounted_from :
    (e : Engine) (user : Str) (items : List JoplinItem) (rows : IncrementalRows)
    → accounted (build_from e user items rows) ≡ accounted rows + length items
unfolding record_seen
accounted_from e user [] rows = omega arith
accounted_from e user (item ∷ items) rows =
    let seen = record_seen item.updated_time rows in
    let next = add_outcome (outcome e user item) seen in
    omega (arith, accounted_from e user items next, accounted_one (outcome e user item) seen)

abbrev active_or : ActiveRow → Outcome → ActiveRow
active_or row (is_active r) = r
active_or row _ = row

not_deleted : (d : DeletedRow) (row : ActiveRow) → is_deleted d ≡ is_active row → ⊥
not_deleted d row h = absurd cc

-- A note tag's row names both its ends.
abbrev pub has_ends : ActiveRow → Bool
has_ends row =
    not (same_type row.item_type note_tag)
    || (is_some row.note_joplin_id && is_some row.tag_joplin_id)

-- A row is the row of an item of the user that is not encrypted, with its id and its type.
abbrev pub Owned : Str → ActiveRow → JoplinItem → Type 0
Owned user row item =
    (same item.owner_id user ≡ true)
    × (item.encrypted ≡ false)
    × (row.joplin_id ≡ item.jop_id)
    × (row.item_type ≡ item.item_type)

-- What a row says of the item that it was built from.
abbrev Built : JoplinItem → ActiveRow → Type 0
Built item row =
    (row.joplin_id ≡ item.jop_id) × (row.item_type ≡ item.item_type) × (has_ends row ≡ true)

built : (item : JoplinItem) (r row : ActiveRow) → r ≡ row → Built item r → Built item row
built item r row e h = subst (Built item) e h

other_type :
    (a : JoplinItemType) (b : Bool)
    → same_type a note_tag ≡ false
    → (not (same_type a note_tag) || b) ≡ true
other_type a b h = ground arith

kept :
    (b c : Bool) (r row : ActiveRow)
    → (if b then some r else none) ≡ some row
    → (r ≡ row) × ((c || b) ≡ true)
kept true c r row h = (some_injective h, ground arith)
kept false c r row h = absurd cc

active_as_lem :
    (t : JoplinItemType) (e : Engine) (item : JoplinItem) (parsed : ParsedItem) (row : ActiveRow)
    → t ≡ item.item_type
    → active_as t e item parsed ≡ some row
    → Built item row
active_as_lem note e item parsed row is_type h =
    built item _ row (some_injective h)
      (refl, refl, other_type item.item_type _ (ap (λ t. same_type t note_tag) (sym is_type)))
active_as_lem folder e item parsed row is_type h =
    built item _ row (some_injective h)
      (refl, refl, other_type item.item_type _ (ap (λ t. same_type t note_tag) (sym is_type)))
active_as_lem tag e item parsed row is_type h =
    built item _ row (some_injective h)
      (refl, refl, other_type item.item_type _ (ap (λ t. same_type t note_tag) (sym is_type)))
active_as_lem resource e item parsed row is_type h =
    built item _ row (some_injective h)
      (refl, refl, other_type item.item_type _ (ap (λ t. same_type t note_tag) (sym is_type)))
active_as_lem note_tag e item parsed row is_type h =
    let (is_row, ends) = kept _ (not (same_type item.item_type note_tag)) _ row h in
    built item _ row is_row (refl, refl, ends)
active_as_lem revision e item parsed row is_type h = absurd cc

row_of_lem :
    (e : Engine) (item : JoplinItem) (parsed : ParsedItem) (row : ActiveRow)
    → row_of e item parsed ≡ is_active row
    → active_row e item parsed ≡ some row
row_of_lem e item parsed row h = elim (Option-cases (deleted_time parsed)) [
  | inl alive ↦ elim (Option-cases (active_row e item parsed)) [
    | inl refused ↦
        let bad : malformed ≡ is_active row = rw (row_of, alive, refused) at h in absurd cc
    | inr (r, is_row) ↦
        let active : is_active r ≡ is_active row = rw (row_of, alive, is_row) at h in
        is_row ∙ ap (λ o. some (active_or row o)) active
  ]
  | inr (time, deleted) ↦
      let bad : is_deleted (deleted_of item parsed time) ≡ is_active row =
        rw (row_of, deleted) at h in
      absurd (not_deleted (deleted_of item parsed time) row bad)
]

guards :
    (own locked : Bool) (o : Outcome) (row : ActiveRow)
    → (if not own then wrong_owner else if locked then is_encrypted else o) ≡ is_active row
    → (own ≡ true) × (locked ≡ false) × (o ≡ is_active row)
guards false locked o row h = absurd cc
guards true true o row h = absurd cc
guards true false o row h = (refl, refl, h)

readable :
    (e : Engine) (item : JoplinItem) (row : ActiveRow)
    → read_item e item ≡ is_active row
    → (parsed : ParsedItem) × (row_of e item parsed ≡ is_active row)
readable e item row h = elim (Option-cases (e.from_utf8 item.content)) [
  | inl garbled ↦ let bad : malformed ≡ is_active row = rw (read_item, garbled) at h in absurd cc
  | inr (raw, is_text) ↦ elim (Option-cases (parse_index_item e item raw)) [
    | inl refused ↦
        let bad : malformed ≡ is_active row = rw (read_item, is_text, refused) at h in absurd cc
    | inr (parsed, reads) ↦
        let read : row_of e item parsed ≡ is_active row = rw (read_item, is_text, reads) at h in
        (parsed, read)
  ]
]

outcome_lem :
    (e : Engine) (user : Str) (item : JoplinItem) (row : ActiveRow)
    → outcome e user item ≡ is_active row
    → Owned user row item × (has_ends row ≡ true)
unfolding outcome active_row
outcome_lem e user item row h =
    let (own, plain, reads) =
      guards (same item.owner_id user) item.encrypted (read_item e item) row h in
    let (parsed, read) = readable e item row reads in
    let (id, of_type, ends) =
      active_as_lem item.item_type e item parsed row refl (row_of_lem e item parsed row read) in
    ((own, plain, id, of_type), ends)

added_one :
    {Q : ActiveRow → Type 0} (o : Outcome) (rows : IncrementalRows)
    → All Q rows.active
    → ((row : ActiveRow) → o ≡ is_active row → Q row)
    → All Q (add_outcome o rows).active
added_one wrong_owner rows h q = h
added_one is_encrypted rows h q = h
added_one malformed rows h q = h
added_one (is_deleted row) rows h q = h
added_one {Q} (is_active row) rows h q = All-append Q rows.active (row ∷ []) h (q row refl, tt)

added :
    (e : Engine) (user : Str) (Q : ActiveRow → Type 0) (item : JoplinItem) (rows : IncrementalRows)
    → All Q rows.active
    → ((row : ActiveRow) → Owned user row item × (has_ends row ≡ true) → Q row)
    → All Q (add_outcome (outcome e user item) rows).active
added e user Q item rows h owned =
    added_one (outcome e user item) rows h
      (λ row is_row. owned row (outcome_lem e user item row is_row))

Owned-from :
    (e : Engine) (user : Str) (P : ActiveRow → Type 0) (items : List JoplinItem)
    (rows : IncrementalRows)
    → All P rows.active
    → All
        (λ row. P row ⊎ (Any (Owned user row) items × (has_ends row ≡ true)))
        (build_from e user items rows).active
unfolding record_seen
Owned-from e user P [] rows h = weaken (λ row p. inl p) rows.active h
Owned-from e user P (item ∷ items) rows h =
    let seen = record_seen item.updated_time rows in
    let Q : ActiveRow → Type 0 = λ row. P row ⊎ (Owned user row item × (has_ends row ≡ true)) in
    let next = add_outcome (outcome e user item) seen in
    weaken
      (λ row found. elim found [
        | inl (inl p) ↦ inl p
        | inl (inr (owned, ends)) ↦ inr (inl owned, ends)
        | inr (later, ends) ↦ inr (inr later, ends)
      ])
      (build_from e user items next).active
      (Owned-from e user Q items next
        (added e user Q item seen (weaken (λ row p. inl p) rows.active h) (λ row owned. inr owned)))

-- Of a batch, every item ends up in exactly one place: an active row, a deleted row or a counter. An
-- active row stems from an item of the batch that belongs to the user and is not encrypted, with that
-- item's id and type, and the row of a note tag names a note and a tag.
pub build_incremental_rows_sound :
    (e : Engine) (user : Str) (items : List JoplinItem)
    → let rows = build_incremental_rows e user items in
      (accounted rows ≡ length items)
      × All (λ row. Any (Owned user row) items × (has_ends row ≡ true)) rows.active
unfolding build_incremental_rows
build_incremental_rows_sound e user items = (
  omega (arith, accounted_from e user items default_rows),
  weaken (λ row found. elim found [ inl none_before ↦ absurd none_before | inr here ↦ here ])
      (build_from e user items default_rows).active
      (Owned-from e user (λ row. ⊥) items default_rows tt),
)
