-- ===== src/Indexer/Tables/Keys.antt =====
-- Rows found by their key, behind a DELETE and behind an upsert, and tables that hold a key once.
use joplin_mcp_rust.Prelude.{
  fun_ext, subst, both_false, ℕ, ◌≡◌, refl, sym, inl, inr, Bool, true, false, ◌&&◌, ◌||◌, List, [],
  ◌∷◌, ◌++◌, Option, none, some, ◌==◌, if◌then◌else◌, same, any, or_else, arith, Bool-cases, both,
  same-eq, ==_iff,
}
use joplin_mcp_rust.Indexer.Item.{Str}
use joplin_mcp_rust.Indexer.Tables.{delete_where, upsert, find}

module _ {R : Type 0} where
  -- One row at most is hit.
  abbrev pub AtMostOne : (R → Bool) → List R → Type 0
  AtMostOne hit [] = Unit
  AtMostOne hit (r ∷ rs) = (hit r ≡ true → any hit rs ≡ false) × AtMostOne hit rs

  pub any-delete_where : (hit : R → Bool) (rs : List R) → any hit (delete_where hit rs) ≡ false
  unfolding delete_where
  any-delete_where hit [] = refl
  any-delete_where hit (r ∷ rs) = elim (Bool-cases (hit r)) [
    | inl holds ↦ rw (delete_where, holds, any-delete_where hit rs) refl
    | inr fails ↦ rw (delete_where, fails, fails, any-delete_where hit rs) refl
  ]

  pub upsert_absent :
      (hit : R → Bool) (row : R) (change : R → R) (rs : List R)
      → any hit rs ≡ false
      → upsert hit row change rs ≡ rs ++ (row ∷ [])
  unfolding upsert
  upsert_absent hit row change rs h = rw (upsert, h) refl

  any_none :
      (hit more : R → Bool) (rs : List R)
      → any hit rs ≡ false
      → any (λ r. hit r && more r) rs ≡ true
      → ⊥
  any_none hit more [] h k = absurd cc
  any_none hit more (r ∷ rs) h k = elim (Bool-cases (hit r)) [
    | inl holds ↦ let bad : true ≡ false = rw (holds) at h in absurd cc
    | inr fails ↦
        any_none hit more rs (let rest : any hit rs ≡ false = rw (fails) at h in rest)
          (let rest : any (λ r. hit r && more r) rs ≡ true = rw (fails) at k in rest)
  ]

  -- What a row that satisfies more than `hit` says of the row found by `hit`.
  pub find-any :
      (hit more : R → Bool) (rs : List R)
      → AtMostOne hit rs
      → any (λ r. hit r && more r) rs ≡ true
      → (r : R) × (find hit rs ≡ some r) × (more r ≡ true)
  unfolding find
  find-any hit more [] unique h = absurd cc
  find-any hit more (r ∷ rs) (first, unique) h = elim (Bool-cases (hit r)) [
    | inl holds ↦ elim (Bool-cases (more r)) [
      | inl good ↦ (r, rw (find, holds) refl, good)
      | inr bad ↦
          let later : any (λ r. hit r && more r) rs ≡ true = rw (holds, bad) at h in
          absurd (any_none hit more rs (first holds) later)
    ]
    | inr fails ↦
        let later : any (λ r. hit r && more r) rs ≡ true = rw (fails) at h in
        let (found, is_found, good) = find-any hit more rs unique later in
        (found, rw (find, fails) is_found, good)
  ]

or_none : {A : Type 0} (o : Option A) → or_else o none ≡ o
or_none none = refl
or_none (some a) = refl

module _ {R : Type 0} (user_of : R → ℕ) (id_of : R → Str) where
  abbrev pub has : ℕ → Str → R → Bool
  has user id r = user_of r == user && same (id_of r) id

  -- A row of one key, asked for another.
  pub has_other :
      (u v : ℕ) (i j : Str) (r : R) → has u i r ≡ true → has v j r ≡ (u == v && same i j)
  has_other u v i j r h =
      let (of_user, of_id) = both (user_of r == u) (same (id_of r) i) h in
      let same_user : user_of r ≡ u = (==_iff (user_of r) u).0 of_user in
      let same_id : id_of r ≡ i = same-eq (id_of r) i of_id in rw (same_user, same_id) refl

  pub has-same : (u v : ℕ) (i j : Str) (r : R) → (u == v && same i j) ≡ true → has v j r ≡ has u i r
  has-same u v i j r h =
      let (of_user, of_id) = both (u == v) (same i j) h in
      let same_user : u ≡ v = (==_iff u v).0 of_user in
      let same_id : i ≡ j = same-eq i j of_id in rw (same_user, same_id) refl

  pub find_purged :
      (u v : ℕ) (i j : Str) (rs : List R)
      → find (has v j) (delete_where (has u i) rs)
        ≡ (if u == v && same i j then none else find (has v j) rs)
  unfolding delete_where find
  find_purged u v i j [] = ground arith
  find_purged u v i j (r ∷ rs) =
      let rest = find_purged u v i j rs in
      elim (Bool-cases (has u i r)) [
        | inl holds ↦
            let other = has_other u v i j r holds in
            elim (Bool-cases (u == v && same i j)) [
              | inl key ↦ rw (delete_where, holds, find, rest, key) refl
              | inr key ↦ rw (delete_where, holds, find, rest, key, other, key) refl
            ]
        | inr fails ↦ elim (Bool-cases (u == v && same i j)) [
          | inl key ↦
              let other = has-same u v i j r key in
              rw (delete_where, fails, find, rest, other, fails, key) refl
          | inr key ↦ rw (delete_where, fails, find, rest, key) refl
        ]
      ]

  pub find_behind :
      (v : ℕ) (j : Str) (row : R) (rs : List R)
      → find (has v j) (rs ++ (row ∷ []))
        ≡ or_else (find (has v j) rs) (if has v j row then some row else none)
  unfolding find
  find_behind v j row [] = refl
  find_behind v j row (r ∷ rs) = elim (Bool-cases (has v j r)) [
    | inl holds ↦ rw (find, holds) refl
    | inr fails ↦ rw (find, fails, find_behind v j row rs) refl
  ]

  pub find_replaced :
      (u v : ℕ) (i j : Str) (row : R) (change : R → R) (rs : List R)
      → has u i row ≡ true
      → find (has v j) (upsert (has u i) row change (delete_where (has u i) rs))
        ≡ (if u == v && same i j then some row else find (has v j) rs)
  find_replaced u v i j row change rs h =
      rw
        (
          upsert_absent (has u i) row change (delete_where (has u i) rs)
              (any-delete_where (has u i) rs),
          find_behind v j row (delete_where (has u i) rs),
          find_purged u v i j rs,
          has_other u v i j row h,
        )
        (elim (Bool-cases (u == v && same i j)) [
          | inl key ↦ rw (key) refl
          | inr key ↦ rw (key) (or_none (find (has v j) rs))
        ])

module _ {R : Type 0} where
  any-delete_other :
      (hit other : R → Bool) (rs : List R)
      → any hit rs ≡ false
      → any hit (delete_where other rs) ≡ false
  unfolding delete_where
  any-delete_other hit other [] h = refl
  any-delete_other hit other (r ∷ rs) h =
      let (head, rest) = both_false (hit r) (any hit rs) h in
      let later = any-delete_other hit other rs rest in
      elim (Bool-cases (other r)) [
        | inl holds ↦ rw (delete_where, holds) later
        | inr fails ↦ rw (delete_where, fails, head) later
      ]

  pub AtMostOne-delete_where :
      (hit other : R → Bool) (rs : List R)
      → AtMostOne hit rs
      → AtMostOne hit (delete_where other rs)
  unfolding delete_where
  AtMostOne-delete_where hit other [] h = tt
  AtMostOne-delete_where hit other (r ∷ rs) (first, h) =
      let later = AtMostOne-delete_where hit other rs h in
      elim (Bool-cases (other r)) [
        | inl holds ↦ rw (delete_where, holds) later
        | inr fails ↦
            rw (delete_where, fails)
              ((λ is_hit. any-delete_other hit other rs (first is_hit)), later)
      ]

  any-behind :
      (hit : R → Bool) (row : R) (rs : List R)
      → any hit rs ≡ false
      → hit row ≡ false
      → any hit (rs ++ (row ∷ [])) ≡ false
  any-behind hit row [] h k = rw (k) refl
  any-behind hit row (r ∷ rs) h k =
      let (head, rest) = both_false (hit r) (any hit rs) h in
      rw (head) (any-behind hit row rs rest k)

  AtMostOne-behind :
      (hit : R → Bool) (row : R) (rs : List R)
      → AtMostOne hit rs
      → (hit row ≡ true → any hit rs ≡ false)
      → AtMostOne hit (rs ++ (row ∷ []))
  AtMostOne-behind hit row [] h absent = ((λ is_hit. refl), tt)
  AtMostOne-behind hit row (r ∷ rs) (first, h) absent = (
    (λ is_hit. elim (Bool-cases (hit row)) [
      | inl again ↦ let bad : (hit r || any hit rs) ≡ false = absent again in absurd (ground arith)
      | inr other ↦ any-behind hit row rs (first is_hit) other
    ]),
    AtMostOne-behind hit row rs h (λ again. (both_false (hit r) (any hit rs) (absent again)).1),
  )

pub AtMostOne-replace :
    {R : Type 0} (user_of : R → ℕ) (id_of : R → Str) (u v : ℕ) (i j : Str) (row : R)
    (change : R → R) (rs : List R)
    → user_of row ≡ u
    → id_of row ≡ i
    → AtMostOne (has user_of id_of v j) rs
    → AtMostOne
        (has user_of id_of v j)
        (upsert (has user_of id_of u i) row change (delete_where (has user_of id_of u i) rs))
AtMostOne-replace user_of id_of u v i j row change rs of_user of_id h =
    let hit = has user_of id_of v j in
    let own = has user_of id_of u i in
    let left = delete_where own rs in
    let absent : (hit row ≡ true) → any hit left ≡ false = λ is_hit.
      let same_key : (u == v && same i j) ≡ true = rw (of_user, of_id) at is_hit in
      let same_hits : (r : _) → hit r ≡ own r = λ r. has-same user_of id_of u v i j r same_key in
      subst (λ p. any p left ≡ false) (sym (fun_ext same_hits)) (any-delete_where own rs) in
    rw (upsert_absent own row change left (any-delete_where own rs))
      (AtMostOne-behind hit row left (AtMostOne-delete_where hit own rs h) absent)
