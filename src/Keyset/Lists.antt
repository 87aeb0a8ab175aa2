-- ===== src/Keyset/Lists.antt =====
-- Filtering, sorting and cutting lists, and what each keeps of them.
use joplin_mcp_rust.Prelude.{
  ℕ, suc, zero, ◌≤◌, ◌≡◌, refl, ◌∙◌, ap, Bool, true, ◌&&◌, List, [], ◌∷◌, take, length, map, All,
  arith, Bool-cases, inl, inr,
}
use joplin_mcp_rust.Keyset.{filter, insert, sort, Ascending}

-- Lists under a function that keeps what is asked of their elements.
module _ {A B : Type 0} (f : A → B) where
  pub filter-map :
      (keep : B → Bool) (xs : List A) → filter keep (map f xs) ≡ map f (filter (λ x. keep (f x)) xs)
  unfolding filter
  filter-map keep [] = refl
  filter-map keep (x ∷ xs) = elim (Bool-cases (keep (f x))) [
    | inl holds ↦ rw (holds, filter-map keep xs) refl
    | inr fails ↦ rw (fails, filter-map keep xs) refl
  ]

  pub take-map : (n : ℕ) (xs : List A) → take n (map f xs) ≡ map f (take n xs)
  take-map zero xs = refl
  take-map (suc n) [] = refl
  take-map (suc n) (x ∷ xs) = ap (λ l. f x ∷ l) (take-map n xs)

  pub All-map : (P : B → Type 0) (xs : List A) → All (λ x. P (f x)) xs → All P (map f xs)
  All-map P [] h = tt
  All-map P (x ∷ xs) (h, hs) = (h, All-map P xs hs)

  pub Ascending-map :
      (before : B → B → Bool) (xs : List A)
      → Ascending (λ x y. before (f x) (f y)) xs
      → Ascending before (map f xs)
  Ascending-map before [] h = tt
  Ascending-map before (x ∷ xs) (first, h) =
      (All-map (λ y. before (f x) y ≡ true) xs first, Ascending-map before xs h)

  pub length-map : (xs : List A) → length (map f xs) ≡ length xs
  length-map [] = refl
  length-map (x ∷ xs) = ap suc (length-map xs)

module _ {A : Type 0} where
  pub filter_twice :
      (p q : A → Bool) (xs : List A) → filter (λ x. p x && q x) xs ≡ filter q (filter p xs)
  unfolding filter
  filter_twice p q [] = refl
  filter_twice p q (x ∷ xs) = elim (Bool-cases (p x)) [
    | inl holds ↦ rw (holds, filter_twice p q xs) refl
    | inr fails ↦ rw (fails, filter_twice p q xs) refl
  ]

  pub All-filtered : (keep : A → Bool) (xs : List A) → All (λ x. keep x ≡ true) (filter keep xs)
  unfolding filter
  All-filtered keep [] = tt
  All-filtered keep (x ∷ xs) = elim (Bool-cases (keep x)) [
    | inl holds ↦ rw (holds) (holds, All-filtered keep xs)
    | inr fails ↦ rw (fails) (All-filtered keep xs)
  ]

  pub All-take : (P : A → Type 0) (n : ℕ) (xs : List A) → All P xs → All P (take n xs)
  All-take P zero xs h = tt
  All-take P (suc n) [] h = tt
  All-take P (suc n) (x ∷ xs) (h, hs) = (h, All-take P n xs hs)

  pub All-true : (xs : List A) → All (λ x. true ≡ true) xs
  All-true [] = tt
  All-true (x ∷ xs) = (refl, All-true xs)

  pub length-filter : (keep : A → Bool) (xs : List A) → length (filter keep xs) ≤ length xs
  unfolding filter
  length-filter keep [] = omega arith
  length-filter keep (x ∷ xs) =
      let rest = length-filter keep xs in
      elim (Bool-cases (keep x)) [
        | inl holds ↦ rw (holds) (omega (arith, rest))
        | inr fails ↦ rw (fails) (omega (arith, rest))
      ]

  pub length-insert :
      (before : A → A → Bool) (x : A) (ys : List A) → length (insert before x ys) ≡ suc (length ys)
  unfolding insert
  length-insert before x [] = refl
  length-insert before x (y ∷ ys) = elim (Bool-cases (before y x)) [
    | inl holds ↦ rw (holds) (ap suc (length-insert before x ys))
    | inr fails ↦ rw (fails) refl
  ]

  pub length-sort : (before : A → A → Bool) (xs : List A) → length (sort before xs) ≡ length xs
  unfolding sort
  length-sort before [] = refl
  length-sort before (x ∷ xs) =
      length-insert before x (sort before xs) ∙ ap suc (length-sort before xs)
