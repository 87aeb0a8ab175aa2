-- ===== src/Keyset/Laws.antt =====
-- The pages of a list in order: put together they are the list.
use joplin_mcp_rust.Prelude.{
  ℕ, suc, zero, ◌≤◌, ◌<◌, ◌≡◌, refl, sym, ◌∙◌, ap, subst, Bool, true, false, List, [], ◌∷◌, ◌++◌,
  Option, none, some, ltb, ltb→lt, take, drop, length, last?, arith, Bool-cases, inl, inr,
  length-take, length-drop, take_all, take-append-drop, concat,
}
use joplin_mcp_rust.Keyset.{filter, Ascending, filter_behind, batches}

pub append_assoc : {A : Type 0} (xs ys zs : List A) → (xs ++ ys) ++ zs ≡ xs ++ (ys ++ zs)
append_assoc [] ys zs = refl
append_assoc (x ∷ xs) ys zs = ap (λ l. x ∷ l) (append_assoc xs ys zs)

pub append_nil : {A : Type 0} (xs : List A) → xs ++ [] ≡ xs
append_nil [] = refl
append_nil (x ∷ xs) = ap (λ l. x ∷ l) (append_nil xs)

pub split_last :
    {A : Type 0} (x : A) (ys : List A)
    → (front : List A) × (c : A) × (x ∷ ys ≡ front ++ (c ∷ [])) × (last? (x ∷ ys) ≡ some c)
split_last x [] = ([], x, refl, refl)
split_last x (y ∷ ys) =
    let (front, c, splits, is_last) = split_last y ys in
    (x ∷ front, c, ap (λ l. x ∷ l) splits, is_last)

-- `after` tells the elements behind a cursor; a page has `suc more` elements at most.
module _ {A C : Type 0} (cursor : A → C) (after : C → A → Bool)
    (asym : (x y : A) → after (cursor x) y ≡ true → after (cursor y) x ≡ false) (more : ℕ)
    (xs : List A) (ordered : Ascending (λ x y. after (cursor x) y) xs) where
  -- What is left behind a cursor, and its first page.
  abbrev pub rest_of : Option C → List A
  rest_of none = xs
  rest_of (some c) = filter (after c) xs

  abbrev pub page : Option C → List A
  page o = take (suc more) (rest_of o)

  pages_behind :
      (fuel : ℕ) (o : Option C) (pre rem : List A)
      → xs ≡ pre ++ rem
      → rest_of o ≡ rem
      → length rem < fuel
      → (bs : List (List A)) × (batches cursor page (suc more) fuel o ≡ some bs) × (concat bs ≡ rem)
  unfolding batches
  pages_behind zero o pre rem whole is_rest enough = absurd (omega arith)
  pages_behind (suc fuel) o pre [] whole is_rest enough = ([], rw (batches, is_rest) refl, refl)
  pages_behind (suc fuel) o pre (r ∷ rs) whole is_rest enough =
      let first : page o ≡ r ∷ take more rs = rw (is_rest) refl in
      let joined : (r ∷ take more rs) ++ drop more rs ≡ r ∷ rs =
        ap (λ l. r ∷ l) (take-append-drop more rs) in
      elim (Bool-cases (ltb (length (r ∷ take more rs)) (suc more))) [
        | inl short ↦
            let few : length rs ≤ more =
              omega
                (arith, ltb→lt (length (r ∷ take more rs)) (suc more) short, length-take more rs) in
            (
              (r ∷ take more rs) ∷ [],
              rw (batches, first, short) refl,
              rw (take_all more rs few) (append_nil (r ∷ rs)),
            )
        | inr full ↦
            let (front, c, splits, is_last) = split_last r (take more rs) in
            let position : xs ≡ (pre ++ front) ++ (c ∷ drop more rs) =
              whole
              ∙ ap (λ l. pre ++ l)
                  (sym joined
                    ∙ ap (λ l. l ++ drop more rs) splits
                    ∙ append_assoc front (c ∷ []) (drop more rs))
              ∙ sym (append_assoc pre front (c ∷ drop more rs)) in
            let behind : rest_of (some (cursor c)) ≡ drop more rs =
              subst (λ l. filter (after (cursor c)) l ≡ drop more rs) (sym position)
                (filter_behind (λ x y. after (cursor x) y) asym (pre ++ front) c (drop more rs)
                  (subst (Ascending (λ x y. after (cursor x) y)) position ordered)) in
            let next : xs ≡ ((pre ++ front) ++ (c ∷ [])) ++ drop more rs =
              position ∙ sym (append_assoc (pre ++ front) (c ∷ []) (drop more rs)) in
            let (bs, later, all_of_it) =
              pages_behind fuel (some (cursor c)) ((pre ++ front) ++ (c ∷ [])) (drop more rs) next
                behind (omega (arith, enough, length-drop more rs)) in
            (
              (r ∷ take more rs) ∷ bs,
              rw (batches, first, full, is_last, later) refl,
              ap (λ l. (r ∷ take more rs) ++ l) all_of_it ∙ joined,
            )
      ]

  -- Fuel beyond the list's length is enough, and the pages put together are the list.
  pub concat-batches :
      (fuel : ℕ)
      → length xs < fuel
      → (bs : List (List A)) × (batches cursor page (suc more) fuel none ≡ some bs)
        × (concat bs ≡ xs)
  concat-batches fuel enough = pages_behind fuel none [] xs refl refl enough
