-- ===== src/Indexer/Tables/Reconcile.antt =====
-- Hard deletes, of crates/joplin-mcpd/src/indexer/refresh.rs: the indexed items and edges that Joplin no
-- longer has are purged, and the edges whose note or tag is gone.
pub mod Refs
pub mod Laws
pub mod EdgeLaws
use joplin_mcp_rust.Prelude.{
  ℕ, ◌+◌, ◌-◌, Bool, true, false, not, ◌&&◌, ◌||◌, List, [], ◌∷◌, ◌++◌, Option, none, some, ◌==◌,
  if◌then◌else◌, same, text_ltb, any, map, chars, length, ltb, is_none,
}
use joplin_mcp_rust.Prelude.Int.{ℤ, pos}
use joplin_mcp_rust.Time.{DateTime}
use joplin_mcp_rust.Keyset.{filter, sort}
use joplin_mcp_rust.Indexer.Item.{Str, JoplinItemType, as_i32, from_i32}
use joplin_mcp_rust.Indexer.Tables.{
  DeletedRow, NoteTagRow, Index, delete_where, note_is, tag_is, edge_is,
}
use joplin_mcp_rust.Indexer.Tables.Statements.{purge_active_row, upsert_deleted_row}

pub record JoplinItemRef : Type 0 where
  pub joplin_id : Str
  pub item_type : JoplinItemType

pub record JoplinNoteTagRef : Type 0 where
  pub note_joplin_id : Str
  pub tag_joplin_id : Str

pub record IndexedItemRef : Type 0 where
  pub joplin_id : Str
  pub item_type : ℕ

abbrev pub ref_before : IndexedItemRef → IndexedItemRef → Bool
ref_before a b =
    text_ltb a.joplin_id b.joplin_id
    || (same a.joplin_id b.joplin_id && ltb a.item_type b.item_type)

abbrev pub refs_of : {R : Type 0} → (R → ℕ) → (R → Str) → ℕ → ℕ → List R → List IndexedItemRef
refs_of user_of id_of item_type user rs =
    map (λ r. record { joplin_id = id_of r; item_type = item_type })
      (filter (λ r. user_of r == user) rs)

-- The UNION ALL of the query.
abbrev pub all_refs : ℕ → Index → List IndexedItemRef
all_refs user db =
    refs_of (λ r. r.user_id) (λ r. r.joplin_id) 1 user db.notes
    ++ (refs_of (λ r. r.user_id) (λ r. r.joplin_id) 2 user db.notebooks
        ++ (refs_of (λ r. r.user_id) (λ r. r.joplin_id) 5 user db.tags
            ++ refs_of (λ r. r.user_id) (λ r. r.joplin_id) 9 user db.resources))

unfoldable pub indexed_item_refs : ℕ → Index → List IndexedItemRef
indexed_item_refs user db = sort ref_before (all_refs user db)

-- What a loop leaves: the rows it removed, and the tables.
pub record Reconciled : Type 0 where
  pub reconciled : ℕ
  pub tables : Index

-- `active.contains(&(joplin_id, item_type))`
abbrev pub is_active_ref : List JoplinItemRef → Str → ℕ → Bool
is_active_ref active joplin_id item_type =
    any (λ r. same r.joplin_id joplin_id && as_i32 r.item_type == item_type) active

abbrev pub hard_deleted : Str → JoplinItemType → DeletedRow
hard_deleted joplin_id item_type = record {
  joplin_id = joplin_id;
  item_type = item_type;
  updated_time = pos 0;
  deleted_time = none;
  note_joplin_id = none;
  tag_joplin_id = none;
}

abbrev pub reconcile_ref : ℕ → DateTime → List JoplinItemRef → Str → ℕ → Reconciled → Reconciled
reconcile_ref user now active joplin_id type_number state =
    if is_active_ref active joplin_id type_number then state else elim (from_i32 type_number) [
      | none ↦ state
      | some item_type ↦
          let row = hard_deleted joplin_id item_type in
          record {
            reconciled = state.reconciled + 1;
            tables =
                upsert_deleted_row user now row (chars "reconciliation")
                  (purge_active_row user row state.tables);
          }
    ]

abbrev pub reconcile_refs :
    ℕ → DateTime → List JoplinItemRef → List IndexedItemRef → Reconciled → Reconciled
reconcile_refs user now active [] state = state
reconcile_refs user now active (item ∷ rest) state =
    reconcile_refs user now active rest
      (reconcile_ref user now active item.joplin_id item.item_type state)

unfoldable pub reconcile_items : ℕ → DateTime → List JoplinItemRef → Index → Reconciled
reconcile_items user now active db =
    reconcile_refs user now active (indexed_item_refs user db)
      (record { reconciled = 0; tables = db })

abbrev pub dangling : ℕ → Index → NoteTagRow → Bool
dangling user db edge =
    edge.user_id == user
    && (not (any (note_is user edge.note_joplin_id) db.notes)
        || not (any (tag_is user edge.tag_joplin_id) db.tags))

unfoldable pub prune_dangling_note_tag_edges : ℕ → Index → Reconciled
prune_dangling_note_tag_edges user db =
    let left = delete_where (dangling user db) db.note_tags in
    record {
      reconciled = length db.note_tags - length left;
      tables = record db { note_tags = left };
    }

-- `active.contains(&(note_joplin_id, tag_joplin_id))`
abbrev pub is_active_edge : List JoplinNoteTagRef → Str → Str → Bool
is_active_edge active note_id tag_id =
    any (λ r. same r.note_joplin_id note_id && same r.tag_joplin_id tag_id) active

abbrev pub edge_before : NoteTagRow → NoteTagRow → Bool
edge_before a b =
    text_ltb a.note_joplin_id b.note_joplin_id
    || (same a.note_joplin_id b.note_joplin_id && text_ltb a.tag_joplin_id b.tag_joplin_id)

unfoldable pub indexed_note_tag_refs : ℕ → Index → List NoteTagRow
indexed_note_tag_refs user db = sort edge_before (filter (λ r. r.user_id == user) db.note_tags)

abbrev pub reconcile_edge : ℕ → List JoplinNoteTagRef → NoteTagRow → Reconciled → Reconciled
reconcile_edge user active edge state =
    let edges = state.tables.note_tags in
    let left = delete_where (edge_is user edge.note_joplin_id edge.tag_joplin_id) edges in
    if is_active_edge active edge.note_joplin_id edge.tag_joplin_id then state else record {
      reconciled = state.reconciled + (length edges - length left);
      tables = record state.tables { note_tags = left };
    }

abbrev pub reconcile_edges : ℕ → List JoplinNoteTagRef → List NoteTagRow → Reconciled → Reconciled
reconcile_edges user active [] state = state
reconcile_edges user active (edge ∷ rest) state =
    reconcile_edges user active rest (reconcile_edge user active edge state)

unfoldable pub reconcile_note_tag_hard_deletes : ℕ → List JoplinNoteTagRef → Index → Reconciled
reconcile_note_tag_hard_deletes user active db =
    let purged =
      reconcile_edges user active (indexed_note_tag_refs user db)
        (record { reconciled = 0; tables = db }) in
    let pruned = prune_dangling_note_tag_edges user purged.tables in
    record { reconciled = purged.reconciled + pruned.reconciled; tables = pruned.tables }

abbrev items_of : ℕ → DateTime → Option (List JoplinItemRef) → Index → Reconciled
items_of user now none db = record { reconciled = 0; tables = db }
items_of user now (some active) db = reconcile_items user now active db

abbrev edges_of : ℕ → Option (List JoplinNoteTagRef) → Reconciled → Reconciled
edges_of user none state = state
edges_of user (some active) state =
    let done = reconcile_note_tag_hard_deletes user active state.tables in
    record { reconciled = state.reconciled + done.reconciled; tables = done.tables }

-- The references are what the source answered, none where it does not support them.
unfoldable pub reconcile_hard_deletes :
    ℕ → DateTime → Option (List JoplinItemRef) → Option (List JoplinNoteTagRef) → Index → Reconciled
reconcile_hard_deletes user now active_refs active_note_tag_refs db =
    if is_none active_refs && is_none active_note_tag_refs
    then record { reconciled = 0; tables = db }
    else edges_of user active_note_tag_refs (items_of user now active_refs db)
