-- ===== src/Keyset.antt =====
-- Keyset paging, which crates/joplin-mcpd/src/indexer/source.rs and src/mcp/tools.rs both do: a page is
-- the first rows behind the last row of the page before, in an order that no two rows share a place in.
pub mod Laws
pub mod Sort
pub mod Lists
pub mod Walk
use joplin_mcp_rust.Prelude.{
  ℕ, suc, zero, ◌+◌, ◌≤◌, ◌<◌, ◌≡◌, refl, sym, ◌∙◌, ap, subst, Bool, true, false, ◌&&◌, List, [],
  ◌∷◌, ◌++◌, Option, none, some, ltb, if◌then◌else◌, take, drop, length, last?, is_empty, All,
  arith, Bool-cases, inl, inr, length-take, length-drop, take_all, take-append-drop, concat,
  map_option,
}

module _ {A : Type 0} where
  -- `retain`, `filter`, and SQL's WHERE
  unfoldable pub filter : (A → Bool) → List A → List A
  filter keep [] = []
  filter keep (x ∷ xs) = let rest = filter keep xs in if keep x then x ∷ rest else rest

  -- `ORDER BY` and `sort_by`, by a strict order; equal elements stay in their order.
  unfoldable pub insert : (A → A → Bool) → A → List A → List A
  insert before x [] = x ∷ []
  insert before x (y ∷ ys) =
      let rest = insert before x ys in if before y x then y ∷ rest else x ∷ y ∷ ys

  unfoldable pub sort : (A → A → Bool) → List A → List A
  sort before [] = []
  sort before (x ∷ xs) = insert before x (sort before xs)

  abbrev pub Ascending : (A → A → Bool) → List A → Type 0
  Ascending before [] = Unit
  Ascending before (x ∷ xs) = All (λ y. before x y ≡ true) xs × Ascending before xs

  pub filter-All :
      (keep : A → Bool) (xs : List A) → All (λ x. keep x ≡ true) xs → filter keep xs ≡ xs
  unfolding filter
  filter-All keep [] h = refl
  filter-All keep (x ∷ xs) (h, hs) = rw (filter, h, filter-All keep xs hs) refl

  pub filter_none :
      (keep : A → Bool) (xs : List A) → All (λ x. keep x ≡ false) xs → filter keep xs ≡ []
  unfolding filter
  filter_none keep [] h = refl
  filter_none keep (x ∷ xs) (h, hs) = rw (filter, h, filter_none keep xs hs) refl

  pub filter-append :
      (keep : A → Bool) (xs ys : List A) → filter keep (xs ++ ys) ≡ filter keep xs ++ filter keep ys
  unfolding filter
  filter-append keep [] ys = refl
  filter-append keep (x ∷ xs) ys = elim (Bool-cases (keep x)) [
    | inl holds ↦ rw (filter, holds, filter-append keep xs ys) refl
    | inr fails ↦ rw (filter, fails, filter-append keep xs ys) refl
  ]

  pub All-filter :
      (P : A → Type 0) (keep : A → Bool) (xs : List A) → All P xs → All P (filter keep xs)
  unfolding filter
  All-filter P keep [] h = tt
  All-filter P keep (x ∷ xs) (h, hs) = elim (Bool-cases (keep x)) [
    | inl holds ↦ rw (filter, holds) (h, All-filter P keep xs hs)
    | inr fails ↦ rw (filter, fails) (All-filter P keep xs hs)
  ]

  pub weaken : {P Q : A → Type 0} (f : (x : A) → P x → Q x) (xs : List A) → All P xs → All Q xs
  weaken f [] h = tt
  weaken f (x ∷ xs) (h, hs) = (f x h, weaken f xs hs)

  pub All-suffix : (P : A → Type 0) (xs ys : List A) → All P (xs ++ ys) → All P ys
  All-suffix P [] ys h = h
  All-suffix P (x ∷ xs) ys (h, hs) = All-suffix P xs ys hs

  pub Ascending-suffix :
      (before : A → A → Bool) (xs ys : List A) → Ascending before (xs ++ ys) → Ascending before ys
  Ascending-suffix before [] ys h = h
  Ascending-suffix before (x ∷ xs) ys (h, hs) = Ascending-suffix before xs ys hs

  pub Ascending-filter :
      (before : A → A → Bool) (keep : A → Bool) (xs : List A)
      → Ascending before xs
      → Ascending before (filter keep xs)
  unfolding filter
  Ascending-filter before keep [] h = tt
  Ascending-filter before keep (x ∷ xs) (h, hs) = elim (Bool-cases (keep x)) [
    | inl holds ↦
        rw (filter, holds)
          (All-filter (λ y. before x y ≡ true) keep xs h, Ascending-filter before keep xs hs)
    | inr fails ↦ rw (filter, fails) (Ascending-filter before keep xs hs)
  ]

-- A strict order: of two elements before one another at most one is.
module _ {A : Type 0} (before : A → A → Bool)
    (asym : (x y : A) → before x y ≡ true → before y x ≡ false) where
  irrefl : (x : A) → before x x ≡ false
  irrefl x = elim (Bool-cases (before x x)) [ inl h ↦ asym x x h | inr h ↦ h ]

  -- Behind an element of the list are the elements that follow it.
  pub filter_behind :
      (pre : List A) (c : A) (post : List A)
      → Ascending before (pre ++ (c ∷ post))
      → filter (before c) (pre ++ (c ∷ post)) ≡ post
  unfolding filter
  filter_behind [] c post (h, hs) = rw (filter, irrefl c) (filter-All (before c) post h)
  filter_behind (x ∷ pre) c post (h, hs) =
      let (x_before_c, later) = All-suffix (λ y. before x y ≡ true) pre (c ∷ post) h in
      rw (filter, asym x c x_before_c) (filter_behind pre c post hs)

-- The loop over the pages of a source, from a cursor; none when the fuel runs out.
module _ {A C : Type 0} (cursor : A → C) (fetch : Option C → List A) (limit : ℕ) where
  unfoldable pub batches : ℕ → Option C → Option (List (List A))
  batches zero after = none
  batches (suc fuel) after =
      let batch = fetch after in
      let later = batches fuel (map_option cursor (last? batch)) in
      if is_empty batch
      then some []
      else if ltb (length batch) limit
      then some (batch ∷ [])
      else map_option (λ rest. batch ∷ rest) later
