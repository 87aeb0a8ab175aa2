-- ===== src/Indexer/Tables/Reconcile/Refs.antt =====
-- References to items: which of them name an entry, and that every entry has one.
use joplin_mcp_rust.Prelude.{
  ℕ, ◌≡◌, refl, sym, ◌∙◌, ap, Bool, true, false, not, ◌&&◌, ◌||◌, List, [], ◌∷◌, ◌++◌, Option, none,
  some, ◌==◌, if◌then◌else◌, same, same-eq, any, map_option, arith, Bool-cases, inl, inr, both,
  both_false, ==_iff,
}
use joplin_mcp_rust.Keyset.{filter, insert, sort}
use joplin_mcp_rust.Indexer.Item.{
  Str, JoplinItemType, note, folder, tag, note_tag, resource, revision, as_i32, from_i32,
}
use joplin_mcp_rust.Indexer.Tables.{Index, find}
use joplin_mcp_rust.Indexer.Tables.Shelf.{Stored, shelf, of_note, of_notebook, of_tag, of_resource}
use joplin_mcp_rust.Indexer.Tables.Reconcile.{
  JoplinItemRef, IndexedItemRef, is_active_ref, all_refs, refs_of,
}

or_assoc : (a b c : Bool) → (a || (b || c)) ≡ ((a || b) || c)
or_assoc a b c = ground arith

or_swap : (a b c : Bool) → (a || (b || c)) ≡ (b || (a || c))
or_swap a b c = ground arith

any-append :
    {A : Type 0} (p : A → Bool) (xs ys : List A) → any p (xs ++ ys) ≡ (any p xs || any p ys)
any-append p [] ys = refl
any-append p (x ∷ xs) ys = rw (any-append p xs ys) (or_assoc (p x) (any p xs) (any p ys))

any-insert :
    {A : Type 0} (p : A → Bool) (before : A → A → Bool) (x : A) (ys : List A)
    → any p (insert before x ys) ≡ (p x || any p ys)
unfolding insert
any-insert p before x [] = refl
any-insert p before x (y ∷ ys) = elim (Bool-cases (before y x)) [
  | inl holds ↦ rw (insert, holds, any-insert p before x ys) (or_swap (p y) (p x) (any p ys))
  | inr fails ↦ rw (insert, fails) refl
]

pub any-sort :
    {A : Type 0} (p : A → Bool) (before : A → A → Bool) (xs : List A)
    → any p (sort before xs) ≡ any p xs
unfolding sort
any-sort p before [] = refl
any-sort p before (x ∷ xs) =
    rw (sort, any-insert p before x (sort before xs), any-sort p before xs) refl

pub stays : (a c : Bool) (x : Option Stored) → x ≡ (if (a && not true) && c then none else x)
stays a c x = ground arith

pub never : (a : Bool) (x : Option Stored) → x ≡ (if a && false then none else x)
never a x = ground arith

pub either_names :
    (a b c : Bool) (x : Option Stored)
    → (if a && c then none else (if a && b then none else x)) ≡ (if a && (b || c) then none else x)
either_names a b c x = ground arith

pub whole :
    (a : Bool) (x : Option Stored) → (if a && true then none else x) ≡ (if a then none else x)
whole a x = ground arith

pub all_none : (a b : Bool) (x : Option Stored) → (if a && b then x else x) ≡ (if a then x else x)
all_none a b x = ground arith

-- Whether a reference names an entry.
abbrev pub named : JoplinItemType → Str → Str → ℕ → Bool
named t id joplin_id type_number = type_number == as_i32 t && same joplin_id id

abbrev pub names : JoplinItemType → Str → IndexedItemRef → Bool
names t id r = named t id r.joplin_id r.item_type

-- A row that is found is among the references.
refs_of_found :
    {R : Type 0} (user_of : R → ℕ) (id_of : R → Str) (t : JoplinItemType) (user : ℕ) (id : Str)
    (rs : List R)
    → any (names t id) (refs_of user_of id_of (as_i32 t) user rs) ≡ false
    → find (λ r. user_of r == user && same (id_of r) id) rs ≡ none
unfolding filter find
refs_of_found user_of id_of t user id [] h = refl
refs_of_found user_of id_of t user id (r ∷ rs) h = elim (Bool-cases (user_of r == user)) [
  | inl own ↦
      let parts : (named t id (id_of r) (as_i32 t)
            || any (names t id) (refs_of user_of id_of (as_i32 t) user rs))
          ≡ false =
        rw (filter, own) at h in
      let (here, later) =
        both_false (named t id (id_of r) (as_i32 t))
          (any (names t id) (refs_of user_of id_of (as_i32 t) user rs)) parts in
      let other : same (id_of r) id ≡ false = ground arith in
      rw (find, own, other) (refs_of_found user_of id_of t user id rs later)
  | inr foreign ↦
      let later : any (names t id) (refs_of user_of id_of (as_i32 t) user rs) ≡ false =
        rw (filter, foreign) at h in
      rw (find, foreign) (refs_of_found user_of id_of t user id rs later)
]

from_i32-as_i32 : (t : JoplinItemType) → from_i32 (as_i32 t) ≡ some t
unfolding from_i32
from_i32-as_i32 note = refl
from_i32-as_i32 folder = refl
from_i32-as_i32 tag = refl
from_i32-as_i32 note_tag = refl
from_i32-as_i32 resource = refl
from_i32-as_i32 revision = refl

pub as_i32-from_i32 : (n : ℕ) (t : JoplinItemType) → from_i32 n ≡ some t → as_i32 t ≡ n
unfolding from_i32
as_i32-from_i32 n t h = ground arith

pub named_active :
    (active : List JoplinItemRef) (id i : Str) (n : ℕ) (t : JoplinItemType)
    → named t i id n ≡ true
    → is_active_ref active id n ≡ is_active_ref active i (as_i32 t)
named_active active id i n t holds =
    let (types, ids) = both (n == as_i32 t) (same id i) holds in
    let same_n : n ≡ as_i32 t = (==_iff n (as_i32 t)).0 types in
    let same_i : id ≡ i = same-eq id i ids in
    ap (λ m. is_active_ref active id m) same_n ∙ ap (λ j. is_active_ref active j (as_i32 t)) same_i

pub no_type : (id i : Str) (n : ℕ) (t : JoplinItemType) → from_i32 n ≡ none → named t i id n ≡ false
no_type id i n t h = elim (Bool-cases (n == as_i32 t)) [
  | inl types ↦
      let same_n : n ≡ as_i32 t = (==_iff n (as_i32 t)).0 types in
      let known : some t ≡ none = sym (from_i32-as_i32 t) ∙ ap from_i32 (sym same_n) ∙ h in
      absurd cc
  | inr other ↦ rw (other) refl
]

-- The condition of a purge at an entry, as the specification puts it.
pub kept_or_not :
    (a b c d : Bool) (x : Option Stored)
    → (b && d ≡ true → c ≡ false)
    → (if b && (a && d) then none else x) ≡ (if (a && not c) && (b && d) then none else x)
kept_or_not a b c d x h = ground arith

none_of_four :
    {A : Type 0} (p : A → Bool) (ws bs cs ds : List A)
    → any p (ws ++ (bs ++ (cs ++ ds))) ≡ false
    → (any p ws ≡ false) × (any p bs ≡ false) × (any p cs ≡ false) × (any p ds ≡ false)
none_of_four p ws bs cs ds h =
    let (first, behind) =
      both_false (any p ws) (any p (bs ++ (cs ++ ds)))
        (sym (any-append p ws (bs ++ (cs ++ ds))) ∙ h) in
    let (second, later) =
      both_false (any p bs) (any p (cs ++ ds)) (sym (any-append p bs (cs ++ ds)) ∙ behind) in
    let (third, last) = both_false (any p cs) (any p ds) (sym (any-append p cs ds) ∙ later) in
    (first, second, third, last)

unnamed_tables :
    (user : ℕ) (t : JoplinItemType) (i : Str) (db : Index)
    → any (names t i) (all_refs user db) ≡ false
    → (any (names t i) (refs_of (λ r. r.user_id) (λ r. r.joplin_id) 1 user db.notes) ≡ false)
      × (any (names t i) (refs_of (λ r. r.user_id) (λ r. r.joplin_id) 2 user db.notebooks) ≡ false)
      × (any (names t i) (refs_of (λ r. r.user_id) (λ r. r.joplin_id) 5 user db.tags) ≡ false)
      × (any (names t i) (refs_of (λ r. r.user_id) (λ r. r.joplin_id) 9 user db.resources) ≡ false)
unnamed_tables user t i db h =
    none_of_four (names t i) (refs_of (λ r. r.user_id) (λ r. r.joplin_id) 1 user db.notes)
      (refs_of (λ r. r.user_id) (λ r. r.joplin_id) 2 user db.notebooks)
      (refs_of (λ r. r.user_id) (λ r. r.joplin_id) 5 user db.tags)
      (refs_of (λ r. r.user_id) (λ r. r.joplin_id) 9 user db.resources) h

-- An entry that no reference names is not there.
pub unnamed_at :
    (user : ℕ) (t : JoplinItemType) (i : Str) (db : Index)
    → any (names t i) (all_refs user db) ≡ false
    → shelf db user t i ≡ none
unfolding shelf
unnamed_at user note i db h = ap (map_option of_note) (
    refs_of_found (λ r. r.user_id) (λ r. r.joplin_id) note user i db.notes
      (unnamed_tables user note i db h).0)
unnamed_at user folder i db h = ap (map_option of_notebook) (
    refs_of_found (λ r. r.user_id) (λ r. r.joplin_id) folder user i db.notebooks
      (unnamed_tables user folder i db h).1)
unnamed_at user tag i db h = ap (map_option of_tag) (
    refs_of_found (λ r. r.user_id) (λ r. r.joplin_id) tag user i db.tags
      (unnamed_tables user tag i db h).2)
unnamed_at user resource i db h = ap (map_option of_resource) (
    refs_of_found (λ r. r.user_id) (λ r. r.joplin_id) resource user i db.resources
      (unnamed_tables user resource i db h).3)
unnamed_at user note_tag i db h = refl
unnamed_at user revision i db h = refl
