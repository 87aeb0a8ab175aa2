-- ===== src/Keyset/Sort.antt =====
-- Sorting by a strict order that tells any two elements of the list apart, and sorting against filtering.
use joplin_mcp_rust.Prelude.{
  ◌≡◌, ◌⊎◌, refl, sym, ◌∙◌, ap, Bool, true, false, List, [], ◌∷◌, if◌then◌else◌, All, Bool-cases,
  inl, inr,
}
use joplin_mcp_rust.Keyset.{filter, insert, sort, Ascending, All-filter, weaken}

module _ {A : Type 0} where
  All-insert :
      (P : A → Type 0) (before : A → A → Bool) (x : A) (ys : List A)
      → P x
      → All P ys
      → All P (insert before x ys)
  unfolding insert
  All-insert P before x [] h hs = (h, tt)
  All-insert P before x (y ∷ ys) h (k, hs) = elim (Bool-cases (before y x)) [
    | inl holds ↦ rw (holds) (k, All-insert P before x ys h hs)
    | inr fails ↦ rw (fails) (h, (k, hs))
  ]

  pub All-sort :
      (P : A → Type 0) (before : A → A → Bool) (xs : List A) → All P xs → All P (sort before xs)
  unfolding sort
  All-sort P before [] h = tt
  All-sort P before (x ∷ xs) (h, hs) =
      All-insert P before x (sort before xs) h (All-sort P before xs hs)

module _ {A : Type 0} (before : A → A → Bool)
    (trans : (x y z : A) → before x y ≡ true → before y z ≡ true → before x z ≡ true) where
  -- The order tells any two elements apart.
  abbrev pub Apart : List A → Type 0
  Apart [] = Unit
  Apart (x ∷ xs) = All (λ y. (before x y ≡ true) ⊎ (before y x ≡ true)) xs × Apart xs

  Ascending-insert :
      (x : A) (ys : List A)
      → All (λ y. (before x y ≡ true) ⊎ (before y x ≡ true)) ys
      → Ascending before ys
      → Ascending before (insert before x ys)
  unfolding insert
  Ascending-insert x [] h k = (tt, tt)
  Ascending-insert x (y ∷ ys) (apart, h) (first, k) = elim (Bool-cases (before y x)) [
    | inl behind ↦
        rw (behind)
          (All-insert (λ z. before y z ≡ true) before x ys behind first, Ascending-insert x ys h k)
    | inr ahead ↦
        let x_first : before x y ≡ true = elim apart [ inl forth ↦ forth | inr back ↦ absurd cc ] in
        rw (ahead) ((x_first, weaken (λ z later. trans x y z x_first later) ys first), (first, k))
  ]

  pub Ascending-sort : (xs : List A) → Apart xs → Ascending before (sort before xs)
  unfolding sort
  Ascending-sort [] h = tt
  Ascending-sort (x ∷ xs) (apart, h) =
      Ascending-insert x (sort before xs)
        (All-sort (λ y. (before x y ≡ true) ⊎ (before y x ≡ true)) before xs apart)
        (Ascending-sort xs h)

  pub Apart-filter : (keep : A → Bool) (xs : List A) → Apart xs → Apart (filter keep xs)
  unfolding filter
  Apart-filter keep [] h = tt
  Apart-filter keep (x ∷ xs) (apart, h) = elim (Bool-cases (keep x)) [
    | inl holds ↦ rw (holds) (
      All-filter (λ y. (before x y ≡ true) ⊎ (before y x ≡ true)) keep xs apart,
      Apart-filter keep xs h,
    )
    | inr fails ↦ rw (fails) (Apart-filter keep xs h)
  ]

  insert_first :
      (x : A) (zs : List A) → All (λ z. before z x ≡ false) zs → insert before x zs ≡ x ∷ zs
  unfolding insert
  insert_first x [] h = refl
  insert_first x (z ∷ zs) (h, hs) = rw (h) refl

  filter-insert :
      (keep : A → Bool) (x : A) (ys : List A)
      → Ascending before ys
      → filter keep (insert before x ys)
        ≡ (if keep x then insert before x (filter keep ys) else filter keep ys)
  unfolding insert filter
  filter-insert keep x [] h = elim (Bool-cases (keep x)) [
    | inl holds ↦ rw (holds) refl
    | inr fails ↦ rw (fails) refl
  ]
  filter-insert keep x (y ∷ ys) (first, h) = elim (Bool-cases (before y x)) [
    | inl behind ↦
        let rest = filter-insert keep x ys h in
        elim (Bool-cases (keep y)) [
          | inl kept ↦ elim (Bool-cases (keep x)) [
            | inl holds ↦ rw (behind, kept, rest, holds, behind) refl
            | inr fails ↦ rw (behind, kept, rest, fails) refl
          ]
          | inr dropped ↦ rw (behind, dropped, rest) refl
        ]
    | inr ahead ↦
        let none_behind : All (λ z. before z x ≡ false) (y ∷ ys) = (
          ahead,
          weaken
              (λ z later. elim (Bool-cases (before z x)) [
                | inl back ↦ let bad : before y x ≡ true = trans y z x later back in absurd cc
                | inr fine ↦ fine
              ])
              ys first,
        ) in
        let front =
          insert_first x (filter keep (y ∷ ys))
            (All-filter (λ z. before z x ≡ false) keep (y ∷ ys) none_behind) in
        elim (Bool-cases (keep x)) [
          | inl holds ↦ rw (ahead, holds) (sym front)
          | inr fails ↦ rw (ahead, fails) refl
        ]
  ]

  -- An ascending list is sorted.
  pub sort_ascending :
      (asym : (x y : A) → before x y ≡ true → before y x ≡ false) (xs : List A)
      → Ascending before xs
      → sort before xs ≡ xs
  unfolding sort
  sort_ascending asym [] h = refl
  sort_ascending asym (x ∷ xs) (first, h) =
      ap (insert before x) (sort_ascending asym xs h)
      ∙ insert_first x xs (weaken (λ z later. asym x z later) xs first)

  -- Filtering and sorting change places.
  pub filter-sort :
      (keep : A → Bool) (xs : List A)
      → Apart xs
      → filter keep (sort before xs) ≡ sort before (filter keep xs)
  unfolding sort filter
  filter-sort keep [] h = refl
  filter-sort keep (x ∷ xs) (apart, h) =
      filter-insert keep x (sort before xs) (Ascending-sort xs h) ∙ elim (Bool-cases (keep x)) [
        | inl holds ↦ rw (holds, filter-sort keep xs h) refl
        | inr fails ↦ rw (fails) (filter-sort keep xs h)
      ]
