-- ===== src/Indexer/Refresh/Laws.antt =====
-- The refresh over Joplin's own table: the loop ends and works through all that changed.
use joplin_mcp_rust.Prelude.{
  ℕ, suc, zero, ◌≡◌, refl, ◌∙◌, ap, List, [], ◌∷◌, Option, none, some, Result, ok, ltb, length,
  last?, is_empty, map_option, Bool-cases, inl, inr, concat,
}
use joplin_mcp_rust.Time.{DateTime}
use joplin_mcp_rust.Keyset.{batches}
use joplin_mcp_rust.Indexer.Item.{JoplinItem}
use joplin_mcp_rust.Indexer.Parser.{Engine}
use joplin_mcp_rust.Indexer.Source.{
  Collation, RawJoplinItem, JoplinItemCursor, cursor_of, joplin_item_batch_size,
  changed_items_batch, changed_batches, or_empty,
}
use joplin_mcp_rust.Indexer.Source.Laws.{
  IsOrder, DistinctIds, changed_in_order, changed_batches_complete,
}
use joplin_mcp_rust.Indexer.Refresh.{
  JoplinSource, RefreshUser, Progress, Failure, apply_changed, apply_batches,
}

-- The rounds of the loop over given batches.
abbrev pub apply_all :
    Engine → RefreshUser → DateTime → List (List JoplinItem) → Progress → Progress
apply_all e user now [] progress = progress
apply_all e user now (batch ∷ rest) progress =
    apply_all e user now rest (apply_changed e user now batch progress)

under_batch :
    (e : Engine) (user : RefreshUser) (now : DateTime) (batch : List JoplinItem)
    (progress : Progress) (found : Option (List (List JoplinItem)))
    → map_option {B = Result Failure Progress}
        (λ rest. ok (apply_all e user now rest (apply_changed e user now batch progress)))
        found
      ≡ map_option
          (λ rest. ok (apply_all e user now rest progress))
          (map_option (λ rest. batch ∷ rest) found)
under_batch e user now batch progress none = refl
under_batch e user now batch progress (some found) = refl

loop_over :
    (e : Engine) (source : JoplinSource) (user : RefreshUser) (now : DateTime)
    (fetch : Option JoplinItemCursor → List JoplinItem)
    → ((after : Option JoplinItemCursor)
        → source.changed_items_batch user.joplin_user_id user.last_seen_joplin_updated_time after
            joplin_item_batch_size
          ≡ ok (fetch after))
    → (fuel : ℕ) (after : Option JoplinItemCursor) (progress : Progress)
    → apply_batches e source user now fuel after progress
      ≡ map_option
          (λ found. ok (apply_all e user now found progress))
          (batches cursor_of fetch joplin_item_batch_size fuel after)
unfolding batches apply_batches
loop_over e source user now fetch answers zero after progress = refl
loop_over e source user now fetch answers (suc fuel) after progress =
    elim (Bool-cases (is_empty (fetch after))) [
      | inl nothing ↦ rw (apply_batches, answers after, nothing) refl
      | inr something ↦ elim (Bool-cases (ltb (length (fetch after)) joplin_item_batch_size)) [
        | inl short ↦ rw (apply_batches, answers after, something, short) refl
        | inr full ↦
            rw (apply_batches, answers after, something, full)
              (loop_over e source user now fetch answers fuel
                  (map_option cursor_of (last? (fetch after)))
                  (apply_changed e user now (fetch after) progress)
                ∙ under_batch e user now (fetch after) progress (
                    batches cursor_of fetch joplin_item_batch_size fuel
                      (map_option cursor_of (last? (fetch after)))))
      ]
    ]

-- The refresh of a user over Joplin's table, whose ids differ and are told apart by the collation: the loop ends within one round more than the
-- table has rows, and its rounds are those of batches that, put together, are all the user's items of the
-- indexed types that changed since the user's watermark, each once, in the order of their times and of their ids in
-- that collation.
pub apply_batches_complete :
    (e : Engine) (source : JoplinSource) (user : RefreshUser) (now : DateTime) (collate : Collation)
    (items : List RawJoplinItem) (progress : Progress)
    → IsOrder collate
    → DistinctIds items
    → ((after : Option JoplinItemCursor)
        → source.changed_items_batch user.joplin_user_id user.last_seen_joplin_updated_time after
            joplin_item_batch_size
          ≡ ok (
              or_empty (
                changed_items_batch collate items user.joplin_user_id
                  user.last_seen_joplin_updated_time after joplin_item_batch_size)))
    → (found : List (List JoplinItem)) × (apply_batches e source user now
          (suc (length items))
          none
          progress
        ≡ some (ok (apply_all e user now found progress)))
      × (concat found
          ≡ changed_in_order collate items user.joplin_user_id user.last_seen_joplin_updated_time)
unfolding changed_batches
apply_batches_complete e source user now collate items progress order distinct answers =
    let (found, ends, all_of_it) =
      changed_batches_complete collate order items user.joplin_user_id
        user.last_seen_joplin_updated_time distinct in
    (
      found,
      loop_over e source user now
            (λ after. or_empty (
              changed_items_batch collate items user.joplin_user_id
                user.last_seen_joplin_updated_time after joplin_item_batch_size))
            answers (suc (length items)) none progress
          ∙ ap (map_option (λ rest. ok (apply_all e user now rest progress))) ends,
      all_of_it,
    )
