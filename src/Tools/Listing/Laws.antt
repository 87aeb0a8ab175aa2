-- ===== src/Tools/Listing/Laws.antt =====
-- The pages of a list of notes, followed by their cursors.
use joplin_mcp_rust.Prelude.{
  text_ltb, ℕ, suc, ◌≤◌, fun_ext, ◌≡◌, ◌⊎◌, sym, ◌∙◌, ap, subst, Bool, true, false, ◌&&◌, List, [],
  ◌∷◌, Option, none, some, ◌==◌, same, take, length, map, All, arith, concat, ◌-◌, inl, inr,
  Bool-cases,
}
use joplin_mcp_rust.Keyset.{filter, sort, Ascending, All-filter, weaken, filter-All}
use joplin_mcp_rust.Keyset.Laws.{rest_of}
use joplin_mcp_rust.Keyset.Sort.{Apart, Ascending-sort, filter-sort}
use joplin_mcp_rust.Keyset.Lists.{filter_twice, All-filtered, All-true, length-filter, length-sort}
use joplin_mcp_rust.Keyset.Walk.{cut, cut_one_more, walk, concat-walk}
use joplin_mcp_rust.Indexer.Item.{Str}
use joplin_mcp_rust.Indexer.Tables.{NoteRow, Index}
use joplin_mcp_rust.Indexer.Source.Laws.{text_ltb-IsOrder, place_trans, place_asym, place_total}
use joplin_mcp_rust.Tools.Listing.{
  NoteListRequest, Place, time_key, place_of, behind_place, newer, listed, fetch_rows,
  fetch_note_list_rows, tagged, fetch_notes_by_tag_rows, note_list_item, note_summary, list_notes,
  get_notes_by_tag, NoteListItem, NoteSummary,
}

newer_trans : (x y z : NoteRow) → newer x y ≡ true → newer y z ≡ true → newer x z ≡ true
newer_trans x y z h k =
    place_trans text_ltb text_ltb-IsOrder (time_key z) z.joplin_id (time_key y) y.joplin_id
      (time_key x) x.joplin_id k h

newer_asym : (x y : NoteRow) → newer x y ≡ true → newer y x ≡ false
newer_asym x y h =
    place_asym text_ltb text_ltb-IsOrder (time_key y) y.joplin_id (time_key x) x.joplin_id h

-- The primary key of `notes_index`, for one user.
abbrev pub DistinctNotes : ℕ → List NoteRow → Type 0
DistinctNotes user [] = Unit
DistinctNotes user (x ∷ xs) =
    All (λ y. (x.user_id == user && y.user_id == user && same y.joplin_id x.joplin_id) ≡ false) xs
    × DistinctNotes user xs

-- A condition that holds of the user's notes only.
abbrev OfUser : ℕ → (NoteRow → Bool) → Type 0
OfUser user wanted = (row : NoteRow) → wanted row ≡ true → row.user_id == user ≡ true

All-both :
    {A : Type 0} (P Q : A → Type 0) (xs : List A) → All P xs → All Q xs → All (λ x. P x × Q x) xs
All-both P Q [] hs ks = tt
All-both P Q (x ∷ xs) (h, hs) (k, ks) = ((h, k), All-both P Q xs hs ks)

last_false : (a b c : Bool) → a ≡ true → b ≡ true → (a && b && c) ≡ false → c ≡ false
last_false a b c h k l = ground arith

apart_one :
    (user : ℕ) (wanted : NoteRow → Bool) (own : OfUser user wanted) (x : NoteRow)
    (xs : List NoteRow)
    → wanted x ≡ true
    → All (λ y. (x.user_id == user && y.user_id == user && same y.joplin_id x.joplin_id) ≡ false) xs
    → All (λ y. (newer x y ≡ true) ⊎ (newer y x ≡ true)) (filter wanted xs)
apart_one user wanted own x xs h differ =
    weaken
      (λ y (wants, unlike).
        let x_own = own x h in
        let y_own = own y wants in
        place_total text_ltb text_ltb-IsOrder (time_key y) y.joplin_id (time_key x) x.joplin_id (
          last_false (x.user_id == user) (y.user_id == user) (same y.joplin_id x.joplin_id) x_own
            y_own unlike))
      (filter wanted xs)
      (All-both _ _ (filter wanted xs) (All-filtered wanted xs) (
        All-filter
          (λ y. (x.user_id == user && y.user_id == user && same y.joplin_id x.joplin_id) ≡ false)
          wanted xs differ))

Apart-notes :
    (user : ℕ) (wanted : NoteRow → Bool) (own : OfUser user wanted) (rows : List NoteRow)
    → DistinctNotes user rows
    → Apart newer newer_trans (filter wanted rows)
unfolding filter
Apart-notes user wanted own [] h = tt
Apart-notes user wanted own (x ∷ xs) (differ, h) = elim (Bool-cases (wanted x)) [
  | inl holds ↦
      rw (filter, holds)
        (apart_one user wanted own x xs holds differ, Apart-notes user wanted own xs h)
  | inr fails ↦ rw (filter, fails) (Apart-notes user wanted own xs h)
]

-- What a query selects, in order.
abbrev pub in_order : (NoteRow → Bool) → List NoteRow → List NoteRow
in_order wanted rows = sort newer (filter wanted rows)

module _ (user : ℕ) (wanted : NoteRow → Bool) (own : OfUser user wanted) (rows : List NoteRow)
    (distinct : DistinctNotes user rows) (more : ℕ) where
  ascending : Ascending newer (in_order wanted rows)
  ascending =
      Ascending-sort newer newer_trans (filter wanted rows)
        (Apart-notes user wanted own rows distinct)

  behind_none :
      (limit : ℕ) (after : Option Place)
      → fetch_rows wanted rows limit after
        ≡ take limit
            (rest_of place_of behind_place newer_asym more (in_order wanted rows) ascending after)
  unfolding fetch_rows
  behind_none limit none =
      ap (λ l. take limit (sort newer l))
        (filter_twice wanted (λ row. true) rows
          ∙ filter-All (λ row. true) (filter wanted rows) (All-true (filter wanted rows)))
  behind_none limit (some place) = ap (take limit) (
      ap (sort newer) (filter_twice wanted (behind_place place) rows)
      ∙ sym (
          filter-sort newer newer_trans (behind_place place) (filter wanted rows)
            (Apart-notes user wanted own rows distinct)))

  pages_of :
      {B : Type 0} (f : NoteRow → B) (page : Option Place → List B × Option Place)
      → ((after : Option Place)
          → page after ≡ cut f place_of (suc more) (fetch_rows wanted rows (suc (suc more)) after))
      → (pages : List (List B)) × (walk page (suc (length rows)) none ≡ some pages)
        × (concat pages ≡ map f (in_order wanted rows))
  pages_of {B} f page is_page =
      let (pages, ends, all_of_it) =
        concat-walk f place_of behind_place newer_asym more (in_order wanted rows) ascending
          (suc (length rows))
          (omega (arith, length-sort newer (filter wanted rows), length-filter wanted rows)) in
      (
        pages,
        subst (λ p. walk p (suc (length rows)) none ≡ some pages)
            (sym (
              fun_ext λ after.
                is_page after
                ∙ ap (cut f place_of (suc more)) (behind_none (suc (suc more)) after)
                ∙ cut_one_more f place_of (suc more) (
                    rest_of place_of behind_place newer_asym more (in_order wanted rows) ascending
                      after)))
            ends,
        all_of_it,
      )

-- Where the notes of the user have different ids and the limit is at least 1: a client that asks
-- `list_notes` (or `get_recent_notes`) and follows the places in the cursors comes to an end within one
-- page more than there are notes, and the pages put together are the items of all notes that the request
-- selects, each once, the newest first.
pub list_notes_complete :
    (db : Index) (user : ℕ) (request : NoteListRequest)
    → DistinctNotes user db.notes
    → 1 ≤ request.limit
    → (pages : List (List NoteListItem)) × (walk
          (list_notes db user request)
          (suc (length db.notes))
          none
        ≡ some pages)
      × (concat pages ≡ map note_list_item (in_order (listed db user request) db.notes))
unfolding list_notes fetch_note_list_rows
list_notes_complete db user request distinct positive =
    let limit : request.limit ≡ suc (request.limit - 1) = omega arith in
    pages_of user (listed db user request) (λ row h. ground arith) db.notes distinct
      (request.limit - 1) note_list_item (list_notes db user request)
      (λ after.
        ap
          (λ n.
            cut note_list_item place_of n
              (fetch_rows (listed db user request) db.notes (suc n) after))
          limit)

-- The same of `get_notes_by_tag`: the pages are the summaries of all notes of the user with an edge to the
-- tag that are not deleted.
pub get_notes_by_tag_complete :
    (db : Index) (user : ℕ) (tag_id : Str) (limit : ℕ)
    → DistinctNotes user db.notes
    → 1 ≤ limit
    → (pages : List (List NoteSummary)) × (walk
          (get_notes_by_tag db user tag_id limit)
          (suc (length db.notes))
          none
        ≡ some pages)
      × (concat pages ≡ map note_summary (in_order (tagged db user tag_id) db.notes))
unfolding get_notes_by_tag fetch_notes_by_tag_rows
get_notes_by_tag_complete db user tag_id limit distinct positive =
    let whole : limit ≡ suc (limit - 1) = omega arith in
    pages_of user (tagged db user tag_id) (λ row h. ground arith) db.notes distinct (limit - 1)
      note_summary (get_notes_by_tag db user tag_id limit)
      (λ after.
        ap
          (λ n.
            cut note_summary place_of n (fetch_rows (tagged db user tag_id) db.notes (suc n) after))
          whole)
