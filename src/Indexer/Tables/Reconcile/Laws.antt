-- ===== src/Indexer/Tables/Reconcile/Laws.antt =====
-- What the reconciliation leaves of the abstract map: the entries that Joplin still has.
use joplin_mcp_rust.Prelude.{
  ℕ, fun_ext, ◌≡◌, refl, sym, ◌∙◌, ap, true, not, ◌&&◌, List, [], ◌∷◌, none, ◌==◌, if◌then◌else◌,
  same, any, Bool-cases, Option-cases, inl, inr, ==_iff, chars,
}
use joplin_mcp_rust.Time.{DateTime}
use joplin_mcp_rust.Indexer.Item.{same_type}
use joplin_mcp_rust.Indexer.Item.{Str, JoplinItemType, as_i32, from_i32}
use joplin_mcp_rust.Indexer.Tables.{Index}
use joplin_mcp_rust.Indexer.Tables.Shelf.{Shelf, shelf}
use joplin_mcp_rust.Indexer.Tables.Refinement.{shelf-bury}
use joplin_mcp_rust.Indexer.Tables.Reconcile.{
  JoplinItemRef, IndexedItemRef, Reconciled, is_active_ref, reconcile_ref, reconcile_refs,
  reconcile_items, indexed_item_refs, all_refs, hard_deleted, ref_before,
}
use joplin_mcp_rust.Indexer.Tables.Reconcile.Refs.{
  any-sort, stays, never, either_names, whole, all_none, named, names, as_i32-from_i32,
  named_active, no_type, kept_or_not, unnamed_at,
}

-- The specification: of the user's entries those that Joplin has are kept.
abbrev pub keep_active : ℕ → List JoplinItemRef → Shelf → Shelf
keep_active user active s = λ u t i.
    if user == u && not (any (λ r. same r.joplin_id i && same_type r.item_type t) active)
    then none
    else s u t i

-- The entry that one reference takes out.
reconcile_at :
    (user u : ℕ) (now : DateTime) (active : List JoplinItemRef) (id i : Str) (n : ℕ)
    (t : JoplinItemType) (state : Reconciled)
    → shelf (reconcile_ref user now active id n state).tables u t i ≡ (
        if (user == u && not (is_active_ref active i (as_i32 t))) && named t i id n
        then none
        else shelf state.tables u t i)
reconcile_at user u now active id i n t state = elim (Bool-cases (is_active_ref active id n)) [
  | inl kept ↦ elim (Bool-cases (named t i id n)) [
    | inl holds ↦
        let known : is_active_ref active i (as_i32 t) ≡ true =
          sym (named_active active id i n t holds) ∙ kept in
        rw (kept, known) (stays (user == u) (named t i id n) (shelf state.tables u t i))
    | inr fails ↦
        rw (kept, fails)
          (never (user == u && not (is_active_ref active i (as_i32 t))) (shelf state.tables u t i))
  ]
  | inr gone ↦ elim (Option-cases (from_i32 n)) [
    | inl unknown ↦
        rw (gone, unknown, no_type id i n t unknown)
          (never (user == u && not (is_active_ref active i (as_i32 t))) (shelf state.tables u t i))
    | inr (t0, is_t0) ↦
        let number : as_i32 t0 ≡ n = as_i32-from_i32 n t0 is_t0 in
        let purged =
          ap (λ s. s u t i)
            (shelf-bury user now (chars "reconciliation") (hard_deleted id t0) state.tables) in
        rw (gone, is_t0)
          (purged
            ∙ ap
                (λ m.
                  if m == as_i32 t && (user == u && same id i)
                  then none
                  else shelf state.tables u t i)
                number
            ∙ kept_or_not (user == u) (n == as_i32 t) (is_active_ref active i (as_i32 t))
                (same id i) (shelf state.tables u t i)
                (λ holds. sym (named_active active id i n t holds) ∙ gone))
  ]
]

-- The entries that the references of a list take out.
reconcile_refs_at :
    (user u : ℕ) (now : DateTime) (active : List JoplinItemRef) (i : Str) (t : JoplinItemType)
    (refs : List IndexedItemRef) (state : Reconciled)
    → shelf (reconcile_refs user now active refs state).tables u t i ≡ (
        if (user == u && not (is_active_ref active i (as_i32 t))) && any (names t i) refs
        then none
        else shelf state.tables u t i)
reconcile_refs_at user u now active i t [] state =
    never (user == u && not (is_active_ref active i (as_i32 t))) (shelf state.tables u t i)
reconcile_refs_at user u now active i t (item ∷ rest) state =
    let next = reconcile_ref user now active item.joplin_id item.item_type state in
    reconcile_refs_at user u now active i t rest next
    ∙ ap
        (λ x.
          if (user == u && not (is_active_ref active i (as_i32 t))) && any (names t i) rest
          then none
          else x)
        (reconcile_at user u now active item.joplin_id i item.item_type t state)
    ∙ either_names (user == u && not (is_active_ref active i (as_i32 t))) (names t i item)
        (any (names t i) rest) (shelf state.tables u t i)

-- The reconciliation of the items against the references that the source holds active: of the user's
-- entries in the abstract map exactly those remain whose id and type are active, and no other user's
-- entry is touched.
pub shelf-reconcile_items :
    (user : ℕ) (now : DateTime) (active : List JoplinItemRef) (db : Index)
    → shelf (reconcile_items user now active db).tables ≡ keep_active user active (shelf db)
unfolding reconcile_items indexed_item_refs
shelf-reconcile_items user now active db = fun_ext λ u. fun_ext λ t. fun_ext λ i.
    reconcile_refs_at user u now active i t (indexed_item_refs user db)
      (record { reconciled = 0; tables = db })
    ∙ ap
        (λ b.
          if (user == u && not (is_active_ref active i (as_i32 t))) && b
          then none
          else shelf db u t i)
        (any-sort (names t i) ref_before (all_refs user db))
    ∙ elim (Bool-cases (any (names t i) (all_refs user db))) [
      | inl holds ↦
          rw (holds) (whole (user == u && not (is_active_ref active i (as_i32 t))) (shelf db u t i))
      | inr fails ↦ elim (Bool-cases (user == u)) [
        | inl own ↦
            let same_user : user ≡ u = (==_iff user u).0 own in
            let absent : shelf db u t i ≡ none =
              ap (λ v. shelf db v t i) (sym same_user) ∙ unnamed_at user t i db fails in
            rw (absent) (
              all_none (user == u && not (is_active_ref active i (as_i32 t)))
                (any (names t i) (all_refs user db)) none)
        | inr foreign ↦ rw (foreign) refl
      ]
    ]
