-- ===== src/Indexer/Tables/Current.antt =====
-- A row that `active_row_is_current` finds is stored already: skipping it leaves the abstract map as
-- writing it would, where each table holds a key once.
use joplin_mcp_rust.Prelude.{
  ℕ, fun_ext, ◌≡◌, refl, sym, ap, Bool, true, false, ◌&&◌, List, [], ◌∷◌, Option, none, some, ◌==◌,
  same, same-eq, map_option, arith, Bool-cases, both, ==_iff, is_none, any, inl, inr,
}
use joplin_mcp_rust.Prelude.Int.{ℤ, eq_ℤ, eq_ℤ_iff}
use joplin_mcp_rust.Indexer.Item.{
  Str, JoplinItemType, note, folder, tag, note_tag, resource, revision, same_type,
}
use joplin_mcp_rust.Indexer.Tables.{
  ActiveRow, NoteRow, NotebookRow, TagRow, ResourceRow, Index, find, note_is, notebook_is, tag_is,
  resource_is, not_distinct, same_texts, same_bool,
}
use joplin_mcp_rust.Indexer.Tables.Statements.{
  current_as, active_row_is_current, note_agrees, notebook_agrees, tag_agrees, resource_agrees,
}
use joplin_mcp_rust.Indexer.Tables.Keys.{AtMostOne, find-any}
use joplin_mcp_rust.Indexer.Tables.Shelf.{
  Stored, Shelf, of_note, of_notebook, of_tag, of_resource, shelf, asked, put,
}

-- The primary keys of the tables that hold items.
abbrev pub Keyed : Index → Type 0
Keyed db =
    (user : ℕ) (id : Str)
    → AtMostOne (note_is user id) db.notes
      × AtMostOne (notebook_is user id) db.notebooks
      × AtMostOne (tag_is user id) db.tags
      × AtMostOne (resource_is user id) db.resources

texts-eq : (ss ts : List Str) → same_texts ss ts ≡ true → ss ≡ ts
unfolding same_texts
texts-eq [] [] h = refl
texts-eq [] (t ∷ ts) h = absurd cc
texts-eq (s ∷ ss) [] h = absurd cc
texts-eq (s ∷ ss) (t ∷ ts) h =
    let (first, rest) = both (same s t) (same_texts ss ts) h in
    let same_first : s ≡ t = same-eq s t first in
    let same_rest : ss ≡ ts = texts-eq ss ts rest in cc

not_distinct-eq :
    {A : Type 0} (eq : A → A → Bool) (reflects : (a b : A) → eq a b ≡ true → a ≡ b) (o p : Option A)
    → not_distinct eq o p ≡ true
    → o ≡ p
not_distinct-eq eq reflects none none h = refl
not_distinct-eq eq reflects none (some b) h = absurd cc
not_distinct-eq eq reflects (some a) none h = absurd cc
not_distinct-eq eq reflects (some a) (some b) h = ap some (reflects a b h)

text-eq : (o p : Option Str) → not_distinct same o p ≡ true → o ≡ p
text-eq o p h = not_distinct-eq same same-eq o p h

int-eq : (o p : Option ℤ) → not_distinct eq_ℤ o p ≡ true → o ≡ p
int-eq o p h = not_distinct-eq eq_ℤ (λ a b. (eq_ℤ_iff a b).0) o p h

bool-eq : (a b : Bool) → same_bool a b ≡ true → a ≡ b
bool-eq true b h = sym h
bool-eq false true h = absurd cc
bool-eq false false h = refl

none-eq : {A : Type 0} (o : Option A) → is_none o ≡ true → o ≡ none
none-eq none h = refl
none-eq (some a) h = absurd cc

note_content :
    (r : NoteRow) (row : ActiveRow) → note_agrees row r ≡ true → some (of_note r) ≡ asked note row
note_content r row h =
    let id : r.joplin_item_id ≡ row.joplin_item_id =
      same-eq r.joplin_item_id row.joplin_item_id (ground arith) in
    let parent : r.parent_joplin_id ≡ row.parent_joplin_id =
      text-eq r.parent_joplin_id row.parent_joplin_id (ground arith) in
    let title : r.title ≡ row.title = same-eq r.title row.title (ground arith) in
    let body : r.body_text ≡ row.body_text = same-eq r.body_text row.body_text (ground arith) in
    let todo : r.is_todo ≡ row.is_todo = bool-eq r.is_todo row.is_todo (ground arith) in
    let created : r.created_time ≡ some row.created_time =
      int-eq r.created_time (some row.created_time) (ground arith) in
    let updated : r.updated_time ≡ some row.updated_time =
      int-eq r.updated_time (some row.updated_time) (ground arith) in
    let deleted : r.deleted_time ≡ none = none-eq r.deleted_time (ground arith) in
    let refs : r.resource_refs ≡ row.resource_refs =
      texts-eq r.resource_refs row.resource_refs (ground arith) in
    cc

notebook_content :
    (r : NotebookRow) (row : ActiveRow)
    → notebook_agrees row r ≡ true
    → some (of_notebook r) ≡ asked folder row
notebook_content r row h =
    let id : r.joplin_item_id ≡ row.joplin_item_id =
      same-eq r.joplin_item_id row.joplin_item_id (ground arith) in
    let parent : r.parent_joplin_id ≡ row.parent_joplin_id =
      text-eq r.parent_joplin_id row.parent_joplin_id (ground arith) in
    let title : r.title ≡ row.title = same-eq r.title row.title (ground arith) in
    let created : r.created_time ≡ some row.created_time =
      int-eq r.created_time (some row.created_time) (ground arith) in
    let updated : r.updated_time ≡ some row.updated_time =
      int-eq r.updated_time (some row.updated_time) (ground arith) in
    let deleted : r.deleted_time ≡ none = none-eq r.deleted_time (ground arith) in cc

tag_content :
    (r : TagRow) (row : ActiveRow) → tag_agrees row r ≡ true → some (of_tag r) ≡ asked tag row
tag_content r row h =
    let id : r.joplin_item_id ≡ row.joplin_item_id =
      same-eq r.joplin_item_id row.joplin_item_id (ground arith) in
    let title : r.title ≡ row.title = same-eq r.title row.title (ground arith) in
    let updated : r.updated_time ≡ some row.updated_time =
      int-eq r.updated_time (some row.updated_time) (ground arith) in
    cc

resource_content :
    (r : ResourceRow) (row : ActiveRow)
    → resource_agrees row r ≡ true
    → some (of_resource r) ≡ asked resource row
resource_content r row h =
    let id : r.joplin_item_id ≡ row.joplin_item_id =
      same-eq r.joplin_item_id row.joplin_item_id (ground arith) in
    let title : r.title ≡ row.title = same-eq r.title row.title (ground arith) in
    let mime : r.mime ≡ row.mime = text-eq r.mime row.mime (ground arith) in
    let size : r.size_bytes ≡ row.size_bytes = int-eq r.size_bytes row.size_bytes (ground arith) in
    let ext : r.file_extension ≡ row.file_extension =
      text-eq r.file_extension row.file_extension (ground arith) in
    let updated : r.updated_time ≡ some row.updated_time =
      int-eq r.updated_time (some row.updated_time) (ground arith) in
    cc

-- A row found by its key, whose columns agree.
found :
    {R : Type 0} (hit more : R → Bool) (form : R → Stored) (entry : Option Stored) (rs : List R)
    → AtMostOne hit rs
    → ((r : R) → more r ≡ true → some (form r) ≡ entry)
    → any (λ r. hit r && more r) rs ≡ true
    → map_option form (find hit rs) ≡ entry
found hit more form entry rs unique content h =
    let (r, is_found, agrees) = find-any hit more rs unique h in rw (is_found) (content r agrees)

stored_already :
    (user : ℕ) (t : JoplinItemType) (row : ActiveRow) (db : Index)
    → Keyed db
    → current_as t user row db ≡ true
    → shelf db user t row.joplin_id ≡ asked t row
unfolding shelf
stored_already user note row db keyed h =
    found (note_is user row.joplin_id) (note_agrees row) of_note (asked note row) db.notes
      (keyed user row.joplin_id).0 (λ r. note_content r row) h
stored_already user folder row db keyed h =
    found (notebook_is user row.joplin_id) (notebook_agrees row) of_notebook (asked folder row)
      db.notebooks (keyed user row.joplin_id).1 (λ r. notebook_content r row) h
stored_already user tag row db keyed h =
    found (tag_is user row.joplin_id) (tag_agrees row) of_tag (asked tag row) db.tags
      (keyed user row.joplin_id).2 (λ r. tag_content r row) h
stored_already user note_tag row db keyed h = refl
stored_already user resource row db keyed h =
    found (resource_is user row.joplin_id) (resource_agrees row) of_resource (asked resource row)
      db.resources (keyed user row.joplin_id).3 (λ r. resource_content r row) h
stored_already user revision row db keyed h = refl

same_type-eq : (a b : JoplinItemType) → same_type a b ≡ true → a ≡ b
same_type-eq note note h = refl
same_type-eq note _ h = absurd cc
same_type-eq folder folder h = refl
same_type-eq folder _ h = absurd cc
same_type-eq tag tag h = refl
same_type-eq tag _ h = absurd cc
same_type-eq note_tag note_tag h = refl
same_type-eq note_tag _ h = absurd cc
same_type-eq resource resource h = refl
same_type-eq resource _ h = absurd cc
same_type-eq revision revision h = refl
same_type-eq revision _ h = absurd cc

-- Setting an entry to what it is changes nothing.
put_stored :
    (user : ℕ) (t : JoplinItemType) (id : Str) (entry : Option Stored) (s : Shelf)
    → s user t id ≡ entry
    → put user t id entry s ≡ s
put_stored user t id entry s h = fun_ext λ u. fun_ext λ t'. fun_ext λ i.
    elim (Bool-cases (same_type t t' && (user == u && same id i))) [
      | inl key ↦
          let (types, rest) = both (same_type t t') (user == u && same id i) key in
          let (users, ids) = both (user == u) (same id i) rest in
          let same_t : t ≡ t' = same_type-eq t t' types in
          let same_u : user ≡ u = (==_iff user u).0 users in
          let same_i : id ≡ i = same-eq id i ids in rw (key, sym h, same_t, same_u, same_i) refl
      | inr other ↦ rw (other) refl
    ]

pub shelf-current :
    (user : ℕ) (row : ActiveRow) (db : Index)
    → Keyed db
    → active_row_is_current user row db ≡ true
    → put user row.item_type row.joplin_id (asked row.item_type row) (shelf db) ≡ shelf db
unfolding active_row_is_current
shelf-current user row db keyed h =
    put_stored user row.item_type row.joplin_id (asked row.item_type row) (shelf db)
      (stored_already user row.item_type row db keyed h)
