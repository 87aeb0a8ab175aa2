-- ===== src/Indexer/Source/Laws.antt =====
-- The batches of changed items: none is missed and none comes twice.
use joplin_mcp_rust.Prelude.{
  ℕ, suc, ◌≤◌, fun_ext, ◌≡◌, ◌⊎◌, refl, sym, ◌∙◌, ap, subst, Bool, true, false, List, [], ◌∷◌,
  Option, none, some, same, same_refl, text_ltb, text_ltb_asym, text_ltb_trans, text_ltb_total,
  take, length, map, map_option, unwrap_or, All, arith, Bool-cases, inl, inr, concat,
}
use joplin_mcp_rust.Prelude.Int.{ℤ}
use joplin_mcp_rust.Keyset.{filter, sort, Ascending, All-filter, weaken, filter-All, batches}
use joplin_mcp_rust.Keyset.Laws.{concat-batches, page}
use joplin_mcp_rust.Keyset.Sort.{Apart, Apart-filter, All-sort, Ascending-sort, filter-sort}
use joplin_mcp_rust.Keyset.Lists.{
  filter-map, take-map, Ascending-map, length-map, filter_twice, All-filtered, All-take, All-true,
  length-filter, length-sort,
}
use joplin_mcp_rust.Indexer.Item.{Str, JoplinItem, note, from_i32}
use joplin_mcp_rust.Indexer.Source.{
  Collation, RawJoplinItem, JoplinItemCursor, cursor_of, place_before, with_type, try_from, collect,
  indexed_type, changed, raw_before, raw_after, at_least_one, changed_items_batch, changed_batches,
  changed_items_since, joplin_item_batch_size, or_empty,
}

-- A collation that tells any two texts apart, as those of PostgreSQL that are deterministic.
pub record IsOrder (collate : Collation) : Type 0 where
  pub transitive : (i j k : Str) → collate i j ≡ true → collate j k ≡ true → collate i k ≡ true
  pub asymmetric : (i j : Str) → collate i j ≡ true → collate j i ≡ false
  pub total : (i j : Str) → collate i j ≡ false → collate j i ≡ false → i ≡ j

-- The primary key of `items`.
abbrev pub DistinctIds : List RawJoplinItem → Type 0
DistinctIds [] = Unit
DistinctIds (x ∷ xs) = All (λ y. same x.id y.id ≡ false) xs × DistinctIds xs

-- An item with the type that its row has.
abbrev item_of : RawJoplinItem → JoplinItem
item_of raw = with_type raw (unwrap_or (from_i32 raw.jop_type) note)

known_type : (n : ℕ) → indexed_type n ≡ true → from_i32 n ≡ some (unwrap_or (from_i32 n) note)
unfolding from_i32
known_type n h = ground arith

-- A row of a type that the queries select is not refused.
accepted :
    (raw : RawJoplinItem) → indexed_type raw.jop_type ≡ true → try_from raw ≡ some (item_of raw)
unfolding try_from
accepted raw h = ap (map_option (with_type raw)) (known_type raw.jop_type h)

collect_accepted :
    (xs : List RawJoplinItem)
    → All (λ raw. indexed_type raw.jop_type ≡ true) xs
    → collect try_from xs ≡ some (map item_of xs)
unfolding collect
collect_accepted [] h = refl
collect_accepted (x ∷ xs) (h, hs) = rw (collect, accepted x h, collect_accepted xs hs) refl

-- All that changed, in the order of the query.
abbrev pub changed_in_order : Collation → List RawJoplinItem → Str → Option ℤ → List JoplinItem
changed_in_order collate items user_id since =
    map item_of (sort (raw_before collate) (filter (changed user_id since) items))

module _ (collate : Collation) (order : IsOrder collate) where
  pub place_trans :
      (a : ℤ) (i : Str) (b : ℤ) (j : Str) (c : ℤ) (k : Str)
      → place_before collate a i b j ≡ true
      → place_before collate b j c k ≡ true
      → place_before collate a i c k ≡ true
  place_trans a i b j c k h l = let ids = order.transitive i j k in ground arith

  pub place_asym :
      (a : ℤ) (i : Str) (b : ℤ) (j : Str)
      → place_before collate a i b j ≡ true
      → place_before collate b j a i ≡ false
  place_asym a i b j h = let ids = order.asymmetric i j in ground arith

  pub place_total :
      (a : ℤ) (i : Str) (b : ℤ) (j : Str)
      → same i j ≡ false
      → (place_before collate a i b j ≡ true) ⊎ (place_before collate b j a i ≡ true)
  place_total a i b j differ = elim (Bool-cases (collate i j)) [
    | inl forth ↦ ground arith
    | inr not_forth ↦ elim (Bool-cases (collate j i)) [
      | inl back ↦ ground arith
      | inr not_back ↦
          let equal : i ≡ j = order.total i j not_forth not_back in
          let bad : true ≡ false = sym (same_refl i) ∙ ap (same i) equal ∙ differ in absurd cc
    ]
  ]

  -- The order of the query on items, and what stands behind a cursor in it.
  abbrev queried_before : JoplinItem → JoplinItem → Bool
  queried_before x y = place_before collate x.updated_time x.id y.updated_time y.id

  abbrev behind_cursor : JoplinItemCursor → JoplinItem → Bool
  behind_cursor cursor item =
      place_before collate cursor.updated_time cursor.id item.updated_time item.id

  abbrev retain_behind : Option JoplinItemCursor → List JoplinItem → List JoplinItem
  retain_behind none items = items
  retain_behind (some cursor) items = filter (behind_cursor cursor) items

  raw_trans :
      (x y z : RawJoplinItem)
      → raw_before collate x y ≡ true
      → raw_before collate y z ≡ true
      → raw_before collate x z ≡ true
  raw_trans x y z h k = place_trans x.updated_time x.id y.updated_time y.id z.updated_time z.id h k

  item_asym : (x y : JoplinItem) → queried_before x y ≡ true → queried_before y x ≡ false
  item_asym x y h = place_asym x.updated_time x.id y.updated_time y.id h

  Apart-ids : (xs : List RawJoplinItem) → DistinctIds xs → Apart (raw_before collate) raw_trans xs
  Apart-ids [] h = tt
  Apart-ids (x ∷ xs) (differ, h) = (
    weaken (λ y unlike. place_total x.updated_time x.id y.updated_time y.id unlike) xs differ,
    Apart-ids xs h,
  )

  retained :
      (after : Option JoplinItemCursor) (xs : List RawJoplinItem)
      → map item_of (filter (raw_after collate after) xs) ≡ retain_behind after (map item_of xs)
  retained none xs = ap (map item_of) (filter-All (λ raw. true) xs (All-true xs))
  retained (some c) xs = sym (filter-map item_of (behind_cursor c) xs)

  -- A batch is the first rows behind the cursor, of all that changed in order.
  changed_items_batch_lem :
      (items : List RawJoplinItem) (user_id : Str) (since : Option ℤ)
      (after : Option JoplinItemCursor) (limit : ℕ)
      → DistinctIds items
      → changed_items_batch collate items user_id since after limit
        ≡ some (
            take
              (at_least_one limit)
              (retain_behind after (changed_in_order collate items user_id since)))
  unfolding changed_items_batch
  changed_items_batch_lem items user_id since after limit distinct =
      let rows = filter (changed user_id since) items in
      let apart =
        Apart-filter (raw_before collate) raw_trans (changed user_id since) items
          (Apart-ids items distinct) in
      let typed : All (λ raw. indexed_type raw.jop_type ≡ true) (sort (raw_before collate) rows) =
        All-sort (λ raw. indexed_type raw.jop_type ≡ true) (raw_before collate) rows
          (weaken (λ raw h. ground arith) rows (All-filtered (changed user_id since) items)) in
      ap (λ l. collect try_from (take (at_least_one limit) l))
        (ap (sort (raw_before collate))
            (filter_twice (changed user_id since) (raw_after collate after) items)
          ∙ sym (filter-sort (raw_before collate) raw_trans (raw_after collate after) rows apart))
      ∙ collect_accepted
          (take (at_least_one limit)
            (filter (raw_after collate after) (sort (raw_before collate) rows)))
          (All-take (λ raw. indexed_type raw.jop_type ≡ true) (at_least_one limit)
            (filter (raw_after collate after) (sort (raw_before collate) rows))
            (All-filter (λ raw. indexed_type raw.jop_type ≡ true) (raw_after collate after)
              (sort (raw_before collate) rows) typed))
      ∙ ap some (
          sym (
            take-map item_of (at_least_one limit)
              (filter (raw_after collate after) (sort (raw_before collate) rows)))
          ∙ ap (take (at_least_one limit)) (retained after (sort (raw_before collate) rows)))

  in_order :
      (items : List RawJoplinItem) (user_id : Str) (since : Option ℤ)
      → DistinctIds items
      → Ascending queried_before (changed_in_order collate items user_id since)
  in_order items user_id since distinct =
      Ascending-map item_of queried_before
        (sort (raw_before collate) (filter (changed user_id since) items))
        (Ascending-sort (raw_before collate) raw_trans (filter (changed user_id since) items) (
          Apart-filter (raw_before collate) raw_trans (changed user_id since) items
            (Apart-ids items distinct)))

  fewer :
      (items : List RawJoplinItem) (user_id : Str) (since : Option ℤ)
      → length (changed_in_order collate items user_id since) ≤ length items
  fewer items user_id since =
      let rows = filter (changed user_id since) items in
      omega (
        arith,
        length-map item_of (sort (raw_before collate) rows),
        length-sort (raw_before collate) rows,
        length-filter (changed user_id since) items,
      )

  cursor_asym :
      (x y : JoplinItem)
      → behind_cursor (cursor_of x) y ≡ true
      → behind_cursor (cursor_of y) x ≡ false
  cursor_asym x y h = item_asym x y h

  in_cursor_order :
      (items : List RawJoplinItem) (user_id : Str) (since : Option ℤ)
      → DistinctIds items
      → Ascending
          (λ x y. behind_cursor (cursor_of x) y)
          (changed_in_order collate items user_id since)
  in_cursor_order items user_id since distinct = in_order items user_id since distinct

  fetched :
      (items : List RawJoplinItem) (user_id : Str) (since : Option ℤ) (distinct : DistinctIds items)
      (after : Option JoplinItemCursor)
      → or_empty (changed_items_batch collate items user_id since after joplin_item_batch_size)
        ≡ page cursor_of behind_cursor cursor_asym 499
            (changed_in_order collate items user_id since)
            (in_cursor_order items user_id since distinct)
            after
  fetched items user_id since distinct none =
      ap or_empty (changed_items_batch_lem items user_id since none joplin_item_batch_size distinct)
  fetched items user_id since distinct (some c) =
      ap or_empty
        (changed_items_batch_lem items user_id since (some c) joplin_item_batch_size distinct)

  -- On a table whose ids differ, the loop over the batches ends within one round more than the table has
  -- rows, and the batches put together are the user's items of the indexed types that changed since the
  -- given time, each once, in the order of their times and ids.
  pub changed_batches_complete :
      (items : List RawJoplinItem) (user_id : Str) (since : Option ℤ)
      → DistinctIds items
      → (found : List (List JoplinItem)) × (changed_batches collate items user_id since
            (suc (length items))
          ≡ some found)
        × (concat found ≡ changed_in_order collate items user_id since)
  unfolding changed_batches
  changed_batches_complete items user_id since distinct =
      let changes = changed_in_order collate items user_id since in
      let (found, ends, all_of_it) =
        concat-batches cursor_of behind_cursor cursor_asym 499 changes
          (in_cursor_order items user_id since distinct) (suc (length items))
          (omega (arith, fewer items user_id since)) in
      (
        found,
        subst
            (λ fetch.
              batches cursor_of fetch joplin_item_batch_size (suc (length items)) none ≡ some found)
            (sym (fun_ext (fetched items user_id since distinct))) ends,
        all_of_it,
      )

  pub changed_items_since_complete :
      (items : List RawJoplinItem) (user_id : Str) (since : Option ℤ)
      → DistinctIds items
      → changed_items_since collate items user_id since
        ≡ some (changed_in_order collate items user_id since)
  unfolding changed_items_since
  changed_items_since_complete items user_id since distinct =
      let (found, ends, all_of_it) = changed_batches_complete items user_id since distinct in
      rw (ends) (ap some all_of_it)

-- The order by bytes is one.
pub text_ltb-IsOrder : IsOrder text_ltb
text_ltb-IsOrder = record {
  transitive = text_ltb_trans;
  asymmetric = text_ltb_asym;
  total = text_ltb_total;
}
