-- ===== src/Keyset/Walk.antt =====
-- Pages that name the cursor of the next one: a client that follows the cursors sees the whole list.
use joplin_mcp_rust.Prelude.{
  ℕ, suc, zero, ◌≤◌, ◌<◌, ◌≡◌, refl, sym, ◌∙◌, ap, subst, Bool, true, false, List, [], ◌∷◌, ◌++◌,
  Option, none, some, ltb, if◌then◌else◌, take, drop, length, last?, arith, Bool-cases, inl, inr,
  length-take, length-drop, take_all, take-append-drop, concat, map_option, map, map-append,
}
use joplin_mcp_rust.Keyset.{filter, Ascending, filter_behind}
use joplin_mcp_rust.Keyset.Laws.{append_assoc, append_nil, split_last, rest_of}

-- A page, and what follows it if it names a cursor.
abbrev pub follow :
    {B C : Type 0} → List B × Option C → (C → Option (List (List B))) → Option (List (List B))
follow (page, none) rest = some (page ∷ [])
follow (page, some c) rest = map_option (λ pages. page ∷ pages) (rest c)

-- The client's loop, from a cursor; none when the fuel runs out.
unfoldable pub walk :
    {B C : Type 0} → (Option C → List B × Option C) → ℕ → Option C → Option (List (List B))
walk page zero o = none
walk page (suc fuel) o = follow (page o) (λ c. walk page fuel (some c))

walk_stop :
    {B C : Type 0} (page : Option C → List B × Option C) (fuel : ℕ) (o : Option C) (rows : List B)
    → page o ≡ (rows, none)
    → walk page (suc fuel) o ≡ some (rows ∷ [])
unfolding walk
walk_stop page fuel o rows e = ap (λ p. follow p (λ c. walk page fuel (some c))) e

walk_on :
    {B C : Type 0} (page : Option C → List B × Option C) (fuel : ℕ) (o : Option C) (rows : List B)
    (c : C) (pages : List (List B))
    → page o ≡ (rows, some c)
    → walk page fuel (some c) ≡ some pages
    → walk page (suc fuel) o ≡ some (rows ∷ pages)
unfolding walk
walk_on page fuel o rows c pages e later =
    ap (λ p. follow p (λ d. walk page fuel (some d))) e
    ∙ ap (map_option (λ rest. rows ∷ rest)) later

-- `limit` rows and the cursor of the last of them, if there are more.
abbrev pub cut : {A B C : Type 0} → (A → B) → (A → C) → ℕ → List A → List B × Option C
cut f cursor limit rows = (
  map f (take limit rows),
  (if ltb limit (length rows) then map_option cursor (last? (take limit rows)) else none),
)

take_twice : {A : Type 0} (n : ℕ) (xs : List A) → take n (take (suc n) xs) ≡ take n xs
take_twice zero xs = refl
take_twice (suc n) [] = refl
take_twice (suc n) (x ∷ xs) = ap (λ l. x ∷ l) (take_twice n xs)

more_left :
    {A : Type 0} (n : ℕ) (xs : List A) → ltb n (length (take (suc n) xs)) ≡ ltb n (length xs)
more_left n xs = let taken = length-take (suc n) xs in ground arith

-- One row more than a page is enough to tell whether there are more.
pub cut_one_more :
    {A B C : Type 0} (f : A → B) (cursor : A → C) (limit : ℕ) (rows : List A)
    → cut f cursor limit (take (suc limit) rows) ≡ cut f cursor limit rows
cut_one_more f cursor limit rows = rw (take_twice limit rows, more_left limit rows) refl

module _ {A B C : Type 0} (f : A → B) (cursor : A → C) (after : C → A → Bool)
    (asym : (x y : A) → after (cursor x) y ≡ true → after (cursor y) x ≡ false) (more : ℕ)
    (xs : List A) (ordered : Ascending (λ x y. after (cursor x) y) xs) where
  abbrev pub cut_behind : Option C → List B × Option C
  cut_behind o = cut f cursor (suc more) (rest_of cursor after asym more xs ordered o)

  walk_behind :
      (fuel : ℕ) (o : Option C) (pre rem : List A)
      → xs ≡ pre ++ rem
      → rest_of cursor after asym more xs ordered o ≡ rem
      → length rem < fuel
      → (pages : List (List B)) × (walk cut_behind fuel o ≡ some pages) × (concat pages ≡ map f rem)
  unfolding walk
  walk_behind zero o pre rem whole is_rest enough = absurd (omega arith)
  walk_behind (suc fuel) o pre [] whole is_rest enough =
      let small : ltb (suc more) 0 ≡ false = ground arith in
      let here : cut_behind o ≡ ([], none) =
        ap (cut f cursor (suc more)) is_rest ∙ rw (small) refl in
      ([] ∷ [], walk_stop cut_behind fuel o [] here, refl)
  walk_behind (suc fuel) o pre (r ∷ rs) whole is_rest enough =
      let joined : (r ∷ take more rs) ++ drop more rs ≡ r ∷ rs =
        ap (λ l. r ∷ l) (take-append-drop more rs) in
      elim (Bool-cases (ltb (suc more) (length (r ∷ rs)))) [
        | inr short ↦
            let few : length rs ≤ more = ground arith in
            (
              map f (r ∷ take more rs) ∷ [],
              walk_stop cut_behind fuel o (map f (r ∷ take more rs))
                  (ap (cut f cursor (suc more)) is_rest ∙ rw (short) refl),
              rw (take_all more rs few) (append_nil (map f (r ∷ rs))),
            )
        | inl full ↦
            let (front, c, splits, is_last) = split_last r (take more rs) in
            let position : xs ≡ (pre ++ front) ++ (c ∷ drop more rs) =
              whole
              ∙ ap (λ l. pre ++ l)
                  (sym joined
                    ∙ ap (λ l. l ++ drop more rs) splits
                    ∙ append_assoc front (c ∷ []) (drop more rs))
              ∙ sym (append_assoc pre front (c ∷ drop more rs)) in
            let behind : rest_of cursor after asym more xs ordered (some (cursor c))
                ≡ drop more rs =
              subst (λ l. filter (after (cursor c)) l ≡ drop more rs) (sym position)
                (filter_behind (λ x y. after (cursor x) y) asym (pre ++ front) c (drop more rs)
                  (subst (Ascending (λ x y. after (cursor x) y)) position ordered)) in
            let next : xs ≡ ((pre ++ front) ++ (c ∷ [])) ++ drop more rs =
              position ∙ sym (append_assoc (pre ++ front) (c ∷ []) (drop more rs)) in
            let (pages, later, all_of_it) =
              walk_behind fuel (some (cursor c)) ((pre ++ front) ++ (c ∷ [])) (drop more rs) next
                behind (omega (arith, enough, length-drop more rs)) in
            (
              map f (r ∷ take more rs) ∷ pages,
              walk_on cut_behind fuel o (map f (r ∷ take more rs)) (cursor c) pages
                  (ap (cut f cursor (suc more)) is_rest ∙ rw (full, is_last) refl) later,
              ap (λ l. map f (r ∷ take more rs) ++ l) all_of_it
                  ∙ sym (map-append f (r ∷ take more rs) (drop more rs))
                  ∙ ap (map f) joined,
            )
      ]

  pub concat-walk :
      (fuel : ℕ)
      → length xs < fuel
      → (pages : List (List B)) × (walk cut_behind fuel none ≡ some pages)
        × (concat pages ≡ map f xs)
  concat-walk fuel enough = walk_behind fuel none [] xs refl refl enough
