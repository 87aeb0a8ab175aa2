-- ===== src/Indexer/Tables/Writes.antt =====
-- The statements of crates/joplin-mcpd/src/indexer/refresh.rs as writes to the abstract map.
use joplin_mcp_rust.Prelude.{
  fun_ext, ℕ, ◌≡◌, refl, ◌∙◌, ap, Bool, true, false, ◌&&◌, List, none, some, ◌==◌, if◌then◌else◌,
  same, map_option, same_refl, ==_iff,
}
use joplin_mcp_rust.Time.{DateTime}
use joplin_mcp_rust.Indexer.Item.{
  Str, JoplinItemType, note, folder, tag, note_tag, resource, revision,
}
use joplin_mcp_rust.Indexer.Tables.{
  ActiveRow, DeletedRow, Index, find, upsert, delete_where, NoteTagRow, DeletedItemRow,
}
use joplin_mcp_rust.Indexer.Tables.Statements.{
  note_row, notebook_row, tag_row, resource_row, upsert_as, upsert_active_row, purge_active_item,
  purge_active_row,
}
use joplin_mcp_rust.Indexer.Tables.Keys.{find_purged, find_replaced}
use joplin_mcp_rust.Indexer.Tables.Shelf.{
  Stored, of_note, of_notebook, of_tag, of_resource, shelf, asked, put,
}

if_same :
    {A B : Type 0} (f : A → B) (b : Bool) (x y : A)
    → f (if b then x else y) ≡ (if b then f x else f y)
if_same f true x y = refl
if_same f false x y = refl

key_refl : (user : ℕ) (id : Str) → (user == user && same id id) ≡ true
key_refl user id = rw ((==_iff user user).1 refl, same_refl id) refl

either_way : {A : Type 0} (b : Bool) (o : A) → o ≡ (if b then o else o)
either_way true o = refl
either_way false o = refl

-- The row of a key behind a DELETE of a key, and behind a DELETE and an upsert.
module _ {R : Type 0} (user_of : R → ℕ) (id_of : R → Str) (form : R → Stored) (user u : ℕ)
    (id i : Str) where
  form_purged :
      (rs : List R)
      → map_option form (
          find
            (λ r. user_of r == u && same (id_of r) i)
            (delete_where (λ r. user_of r == user && same (id_of r) id) rs))
        ≡ (if user == u && same id i
            then none
            else map_option form (find (λ r. user_of r == u && same (id_of r) i) rs))
  form_purged rs =
      ap (map_option form) (find_purged user_of id_of user u id i rs)
      ∙ if_same (map_option form) (user == u && same id i) none
          (find (λ r. user_of r == u && same (id_of r) i) rs)

  form_replaced :
      (row : R) (change : R → R) (rs : List R)
      → (user_of row == user && same (id_of row) id) ≡ true
      → map_option form (
          find
            (λ r. user_of r == u && same (id_of r) i)
            (upsert
              (λ r. user_of r == user && same (id_of r) id)
              row
              change
              (delete_where (λ r. user_of r == user && same (id_of r) id) rs)))
        ≡ (if user == u && same id i
            then some (form row)
            else map_option form (find (λ r. user_of r == u && same (id_of r) i) rs))
  form_replaced row change rs h =
      ap (map_option form) (find_replaced user_of id_of user u id i row change rs h)
      ∙ if_same (map_option form) (user == u && same id i) (some row)
          (find (λ r. user_of r == u && same (id_of r) i) rs)

purge_at :
    (user u : ℕ) (t t' : JoplinItemType) (id i : Str) (db : Index)
    → shelf (purge_active_item user id t db) u t' i ≡ put user t id none (shelf db) u t' i
unfolding shelf purge_active_item
purge_at user u note note id i db =
    form_purged (λ r. r.user_id) (λ r. r.joplin_id) of_note user u id i db.notes
purge_at user u note _ id i db = refl
purge_at user u folder folder id i db =
    form_purged (λ r. r.user_id) (λ r. r.joplin_id) of_notebook user u id i db.notebooks
purge_at user u folder _ id i db = refl
purge_at user u tag tag id i db =
    form_purged (λ r. r.user_id) (λ r. r.joplin_id) of_tag user u id i db.tags
purge_at user u tag _ id i db = refl
purge_at user u resource resource id i db =
    form_purged (λ r. r.user_id) (λ r. r.joplin_id) of_resource user u id i db.resources
purge_at user u resource _ id i db = refl
purge_at user u note_tag note_tag id i db = either_way (user == u && same id i) none
purge_at user u note_tag _ id i db = refl
purge_at user u revision revision id i db = either_way (user == u && same id i) none
purge_at user u revision _ id i db = refl

-- A purge takes one entry out of the abstract map.
pub shelf-purge_active_item :
    (user : ℕ) (id : Str) (t : JoplinItemType) (db : Index)
    → shelf (purge_active_item user id t db) ≡ put user t id none (shelf db)
shelf-purge_active_item user id t db =
    fun_ext λ u. fun_ext λ t'. fun_ext λ i. purge_at user u t t' id i db

replace_at :
    (user u : ℕ) (now : DateTime) (t t' : JoplinItemType) (row : ActiveRow) (i : Str) (db : Index)
    → shelf (upsert_as t user now row (purge_active_item user row.joplin_id t db)) u t' i
      ≡ put user t row.joplin_id (asked t row) (shelf db) u t' i
unfolding shelf purge_active_item
replace_at user u now note note row i db =
    let new = note_row user now row in
    form_replaced (λ r. r.user_id) (λ r. r.joplin_id) of_note user u row.joplin_id i new
      (λ old. new) db.notes (key_refl user row.joplin_id)
replace_at user u now note _ row i db = refl
replace_at user u now folder folder row i db =
    let new = notebook_row user now row in
    form_replaced (λ r. r.user_id) (λ r. r.joplin_id) of_notebook user u row.joplin_id i new
      (λ old. new) db.notebooks (key_refl user row.joplin_id)
replace_at user u now folder _ row i db = refl
replace_at user u now tag tag row i db =
    let new = tag_row user now row in
    form_replaced (λ r. r.user_id) (λ r. r.joplin_id) of_tag user u row.joplin_id i new (λ old. new)
      db.tags (key_refl user row.joplin_id)
replace_at user u now tag _ row i db = refl
replace_at user u now resource resource row i db =
    let new = resource_row user now row in
    form_replaced (λ r. r.user_id) (λ r. r.joplin_id) of_resource user u row.joplin_id i new
      (λ old. new) db.resources (key_refl user row.joplin_id)
replace_at user u now resource _ row i db = refl
replace_at user u now note_tag note_tag row i db =
    either_way (user == u && same row.joplin_id i) none
replace_at user u now note_tag _ row i db = refl
replace_at user u now revision revision row i db =
    either_way (user == u && same row.joplin_id i) none
replace_at user u now revision _ row i db = refl

-- What `apply_incremental_refresh` does with an active row that it does not skip.
abbrev pub replace_active_row : ℕ → DateTime → ActiveRow → Index → Index
replace_active_row user now row db =
    upsert_active_row user now row (purge_active_item user row.joplin_id row.item_type db)

pub shelf-replace_active_row :
    (user : ℕ) (now : DateTime) (row : ActiveRow) (db : Index)
    → shelf (replace_active_row user now row db)
      ≡ put user row.item_type row.joplin_id (asked row.item_type row) (shelf db)
unfolding upsert_active_row
shelf-replace_active_row user now row db =
    fun_ext λ u. fun_ext λ t. fun_ext λ i. replace_at user u now row.item_type t row i db

-- The edges and the tombstones are no part of the map.
at_edges :
    (db : Index) (edges : List NoteTagRow) (u : ℕ) (t : JoplinItemType) (i : Str)
    → shelf (record db { note_tags = edges }) u t i ≡ shelf db u t i
unfolding shelf
at_edges db edges u note i = refl
at_edges db edges u folder i = refl
at_edges db edges u tag i = refl
at_edges db edges u note_tag i = refl
at_edges db edges u resource i = refl
at_edges db edges u revision i = refl

pub shelf_edges :
    (db : Index) (edges : List NoteTagRow) → shelf (record db { note_tags = edges }) ≡ shelf db
shelf_edges db edges = fun_ext λ u. fun_ext λ t. fun_ext λ i. at_edges db edges u t i

at_tombstones :
    (db : Index) (tombs : List DeletedItemRow) (u : ℕ) (t : JoplinItemType) (i : Str)
    → shelf (record db { deleted_items = tombs }) u t i ≡ shelf db u t i
unfolding shelf
at_tombstones db tombs u note i = refl
at_tombstones db tombs u folder i = refl
at_tombstones db tombs u tag i = refl
at_tombstones db tombs u note_tag i = refl
at_tombstones db tombs u resource i = refl
at_tombstones db tombs u revision i = refl

pub shelf_tombstones :
    (db : Index) (tombs : List DeletedItemRow)
    → shelf (record db { deleted_items = tombs }) ≡ shelf db
shelf_tombstones db tombs = fun_ext λ u. fun_ext λ t. fun_ext λ i. at_tombstones db tombs u t i

-- A deleted row takes its entry out too; the edge that it names is no entry.
pub shelf-purge_active_row :
    (user : ℕ) (row : DeletedRow) (db : Index)
    → shelf (purge_active_row user row db) ≡ put user row.item_type row.joplin_id none (shelf db)
unfolding purge_active_row
shelf-purge_active_row user row db =
    shelf_edges (purge_active_item user row.joplin_id row.item_type db)
      (purge_active_row user row db).note_tags
    ∙ shelf-purge_active_item user row.joplin_id row.item_type db
