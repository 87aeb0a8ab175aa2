-- ===== src/Indexer/Tables.antt =====
-- The derived tables of crates/joplin-mcpd/migrations (`notes_index` and the others) as lists of rows,
-- and the statements of crates/joplin-mcpd/src/indexer/refresh.rs that write them. A row belongs to a
-- user; `now` is the statement's `now()`. A failing statement ends the transaction, which is rolled
-- back, and is left out.
pub mod Statements
pub mod Keys
pub mod Shelf
pub mod Writes
pub mod Current
pub mod Edges
pub mod Apply
pub mod Refinement
pub mod Reconcile
use joplin_mcp_rust.Prelude.{
  ℕ, Bool, true, false, ◌&&◌, ◌||◌, not, List, [], ◌∷◌, ◌++◌, Option, none, some, ◌==◌,
  if◌then◌else◌, same, any, map, is_none, length,
}
use joplin_mcp_rust.Prelude.Int.{ℤ, eq_ℤ}
use joplin_mcp_rust.Time.{DateTime}
use joplin_mcp_rust.Indexer.Item.{Str, JoplinItemType}

pub record ActiveRow : Type 0 where
  pub joplin_item_id : Str
  pub joplin_id : Str
  pub item_type : JoplinItemType
  pub parent_joplin_id : Option Str
  pub title : Str
  pub body_text : Str
  pub is_todo : Bool
  pub created_time : ℤ
  pub updated_time : ℤ
  pub resource_refs : List Str
  pub mime : Option Str
  pub size_bytes : Option ℤ
  pub file_extension : Option Str
  pub note_joplin_id : Option Str
  pub tag_joplin_id : Option Str

pub record DeletedRow : Type 0 where
  pub joplin_id : Str
  pub item_type : JoplinItemType
  pub updated_time : ℤ
  pub deleted_time : Option ℤ
  pub note_joplin_id : Option Str
  pub tag_joplin_id : Option Str

pub record NoteRow : Type 0 where
  pub user_id : ℕ
  pub joplin_item_id : Str
  pub joplin_id : Str
  pub parent_joplin_id : Option Str
  pub title : Str
  pub body_text : Str
  pub is_todo : Bool
  pub created_time : Option ℤ
  pub updated_time : Option ℤ
  pub deleted_time : Option ℤ
  pub resource_refs : List Str
  pub indexed_at : DateTime

pub record NotebookRow : Type 0 where
  pub user_id : ℕ
  pub joplin_item_id : Str
  pub joplin_id : Str
  pub parent_joplin_id : Option Str
  pub title : Str
  pub created_time : Option ℤ
  pub updated_time : Option ℤ
  pub deleted_time : Option ℤ
  pub indexed_at : DateTime

pub record TagRow : Type 0 where
  pub user_id : ℕ
  pub joplin_item_id : Str
  pub joplin_id : Str
  pub title : Str
  pub updated_time : Option ℤ
  pub indexed_at : DateTime

pub record NoteTagRow : Type 0 where
  pub user_id : ℕ
  pub note_joplin_id : Str
  pub tag_joplin_id : Str
  pub updated_time : Option ℤ
  pub indexed_at : DateTime

pub record ResourceRow : Type 0 where
  pub user_id : ℕ
  pub joplin_item_id : Str
  pub joplin_id : Str
  pub title : Str
  pub mime : Option Str
  pub size_bytes : Option ℤ
  pub file_extension : Option Str
  pub updated_time : Option ℤ
  pub indexed_at : DateTime

pub record DeletedItemRow : Type 0 where
  pub user_id : ℕ
  pub joplin_id : Str
  pub item_type : ℕ
  pub source : Str
  pub deleted_time : Option ℤ
  pub tombstoned_at : DateTime

pub record Index : Type 0 where
  pub notes : List NoteRow
  pub notebooks : List NotebookRow
  pub tags : List TagRow
  pub note_tags : List NoteTagRow
  pub resources : List ResourceRow
  pub deleted_items : List DeletedItemRow

module _ {R : Type 0} where
  -- `DELETE FROM table WHERE hit`
  unfoldable pub delete_where : (R → Bool) → List R → List R
  delete_where hit [] = []
  delete_where hit (r ∷ rs) = let rest = delete_where hit rs in if hit r then rest else r ∷ rest

  unfoldable pub update_where : (R → Bool) → (R → R) → List R → List R
  update_where hit change [] = []
  update_where hit change (r ∷ rs) =
      let rest = update_where hit change rs in if hit r then change r ∷ rest else r ∷ rest

  -- `INSERT ... ON CONFLICT (key) DO UPDATE`: `hit` finds the rows of the new row's key.
  unfoldable pub upsert : (R → Bool) → R → (R → R) → List R → List R
  unfolding update_where
  upsert hit row change rs = if any hit rs then update_where hit change rs else rs ++ (row ∷ [])

  -- The row of a key.
  unfoldable pub find : (R → Bool) → List R → Option R
  find hit [] = none
  find hit (r ∷ rs) = let rest = find hit rs in if hit r then some r else rest

-- The keys of the tables.
abbrev pub note_is : ℕ → Str → NoteRow → Bool
note_is user id r = r.user_id == user && same r.joplin_id id

abbrev pub notebook_is : ℕ → Str → NotebookRow → Bool
notebook_is user id r = r.user_id == user && same r.joplin_id id

abbrev pub tag_is : ℕ → Str → TagRow → Bool
tag_is user id r = r.user_id == user && same r.joplin_id id

abbrev pub resource_is : ℕ → Str → ResourceRow → Bool
resource_is user id r = r.user_id == user && same r.joplin_id id

abbrev pub deleted_item_is : ℕ → Str → DeletedItemRow → Bool
deleted_item_is user id r = r.user_id == user && same r.joplin_id id

abbrev pub edge_is : ℕ → Str → Str → NoteTagRow → Bool
edge_is user note_id tag_id r =
    r.user_id == user && same r.note_joplin_id note_id && same r.tag_joplin_id tag_id

abbrev pub edge_of_note : ℕ → Str → NoteTagRow → Bool
edge_of_note user note_id r = r.user_id == user && same r.note_joplin_id note_id

abbrev pub edge_of_tag : ℕ → Str → NoteTagRow → Bool
edge_of_tag user tag_id r = r.user_id == user && same r.tag_joplin_id tag_id

-- SQL's `a IS NOT DISTINCT FROM b`.
abbrev pub not_distinct {ℓ} : {A : Type ℓ} → (A → A → Bool) → Option A → Option A → Bool
not_distinct eq none none = true
not_distinct eq none (some b) = false
not_distinct eq (some a) none = false
not_distinct eq (some a) (some b) = eq a b

unfoldable pub same_texts : List Str → List Str → Bool
same_texts [] [] = true
same_texts [] (t ∷ ts) = false
same_texts (s ∷ ss) [] = false
same_texts (s ∷ ss) (t ∷ ts) = same s t && same_texts ss ts

abbrev pub same_bool : Bool → Bool → Bool
same_bool true b = b
same_bool false b = not b
