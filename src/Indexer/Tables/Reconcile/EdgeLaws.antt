-- ===== src/Indexer/Tables/Reconcile/EdgeLaws.antt =====
-- What the reconciliation leaves of the note tag edges, and how many it counts.
use joplin_mcp_rust.Prelude.{
  same, ℕ, ◌+◌, ◌-◌, ◌≤◌, fun_ext, ◌≡◌, refl, sym, ◌∙◌, ap, Bool, true, false, not, ◌&&◌, ◌||◌,
  List, [], ◌∷◌, ◌==◌, if◌then◌else◌, same-eq, same_refl, any, All, arith, Bool-cases, inl, inr,
  length,
}
use joplin_mcp_rust.Keyset.{filter, weaken}
use joplin_mcp_rust.Indexer.Tables.{note_is, tag_is, NoteTagRow, Index, delete_where, edge_is}
use joplin_mcp_rust.Indexer.Tables.Reconcile.{
  JoplinNoteTagRef, Reconciled, is_active_edge, reconcile_edge, reconcile_edges, dangling,
  prune_dangling_note_tag_edges, indexed_note_tag_refs, reconcile_note_tag_hard_deletes,
  edge_before,
}
use joplin_mcp_rust.Indexer.Tables.Reconcile.Refs.{any-sort}

or_later : (a b : Bool) → b ≡ true → (a || b) ≡ true
or_later a b h = ground arith

module _ {R : Type 0} where
  length-delete_where : (hit : R → Bool) (rs : List R) → length (delete_where hit rs) ≤ length rs
  unfolding delete_where
  length-delete_where hit [] = omega arith
  length-delete_where hit (r ∷ rs) =
      let rest = length-delete_where hit rs in
      elim (Bool-cases (hit r)) [
        | inl holds ↦ rw (delete_where, holds) (omega (arith, rest))
        | inr fails ↦ rw (delete_where, fails) (omega (arith, rest))
      ]

  delete_twice :
      (p q : R → Bool) (rs : List R)
      → delete_where p (delete_where q rs) ≡ delete_where (λ r. q r || p r) rs
  unfolding delete_where
  delete_twice p q [] = refl
  delete_twice p q (r ∷ rs) =
      let rest = delete_twice p q rs in
      elim (Bool-cases (q r)) [
        | inl holds ↦ rw (holds) rest
        | inr fails ↦ elim (Bool-cases (p r)) [
          | inl also ↦ rw (fails, also) rest
          | inr neither ↦ rw (fails, neither) (ap (λ l. r ∷ l) rest)
        ]
      ]

  delete_cong :
      (p q : R → Bool) (rs : List R)
      → All (λ r. p r ≡ q r) rs
      → delete_where p rs ≡ delete_where q rs
  unfolding delete_where
  delete_cong p q [] h = refl
  delete_cong p q (r ∷ rs) (same_here, h) =
      let rest = delete_cong p q rs h in rw (delete_where, same_here, rest) refl

  delete_nothing : (rs : List R) → delete_where (λ r. false) rs ≡ rs
  unfolding delete_where
  delete_nothing [] = refl
  delete_nothing (r ∷ rs) = ap (λ l. r ∷ l) (delete_nothing rs)

  any-filter :
      (p keep : R → Bool) (rs : List R) → any p (filter keep rs) ≡ any (λ r. keep r && p r) rs
  unfolding filter
  any-filter p keep [] = refl
  any-filter p keep (r ∷ rs) = elim (Bool-cases (keep r)) [
    | inl holds ↦ rw (filter, holds, any-filter p keep rs) refl
    | inr fails ↦ rw (filter, fails, any-filter p keep rs) refl
  ]

  -- Every row of a list satisfies what its own hit shows.
  any_own : (p : R → R → Bool) (rs : List R) → All (λ r. p r r ≡ true → any (p r) rs ≡ true) rs
  any_own p [] = tt
  any_own p (r ∷ rs) = (
    (λ h. rw (h) refl),
    weaken (λ x h k. or_later (p x r) (any (p x) rs) (h k)) rs (any_own p rs),
  )

and_not : (a b c : Bool) → a ≡ true → b ≡ c → not c ≡ true → (a && not b) ≡ true
and_not a b c h k l = ground arith

-- An edge of the user that the active edges lack.
abbrev pub gone : ℕ → List JoplinNoteTagRef → NoteTagRow → Bool
gone user active e =
    e.user_id == user && not (is_active_edge active e.note_joplin_id e.tag_joplin_id)

-- The edges that one of the indexed edges purges.
abbrev purges : ℕ → List JoplinNoteTagRef → NoteTagRow → NoteTagRow → Bool
purges user active e x =
    not (is_active_edge active x.note_joplin_id x.tag_joplin_id)
    && edge_is user x.note_joplin_id x.tag_joplin_id e

edge_one :
    (kept : Bool) (hit : NoteTagRow → Bool) (state : Reconciled)
    → let edges = state.tables.note_tags in
      let left = delete_where hit edges in
      let next : Reconciled = if kept then state else record {
        reconciled = state.reconciled + (length edges - length left);
        tables = record state.tables { note_tags = left };
      } in
      let hits = delete_where (λ e. not kept && hit e) edges in
      (next.tables ≡ record state.tables { note_tags = hits })
      × (next.reconciled + length next.tables.note_tags ≡ state.reconciled + length edges)
edge_one true hit state = (
  ap (λ l. record state.tables { note_tags = l }) (sym (delete_nothing state.tables.note_tags)),
  refl,
)
edge_one false hit state = (refl, omega (arith, length-delete_where hit state.tables.note_tags))

reconcile_edges_lem :
    (user : ℕ) (active : List JoplinNoteTagRef) (xs : List NoteTagRow) (state : Reconciled)
    → let done = reconcile_edges user active xs state in
      let left = delete_where (λ e. any (purges user active e) xs) state.tables.note_tags in
      (done.tables ≡ record state.tables { note_tags = left })
      × (done.reconciled + length done.tables.note_tags
          ≡ state.reconciled + length state.tables.note_tags)
reconcile_edges_lem user active [] state = (
  ap (λ l. record state.tables { note_tags = l }) (sym (delete_nothing state.tables.note_tags)),
  refl,
)
reconcile_edges_lem user active (x ∷ xs) state =
    let kept = is_active_edge active x.note_joplin_id x.tag_joplin_id in
    let hit = edge_is user x.note_joplin_id x.tag_joplin_id in
    let (one, counted) = edge_one kept hit state in
    let (tables, later) = reconcile_edges_lem user active xs (reconcile_edge user active x state) in
    (
      tables
          ∙ ap {A = Index}
              (λ t. record t {
                note_tags = delete_where (λ e. any (purges user active e) xs) t.note_tags;
              })
              one
          ∙ ap (λ l. record state.tables { note_tags = l })
              (delete_twice (λ e. any (purges user active e) xs) (λ e. not kept && hit e)
                state.tables.note_tags),
      later ∙ counted,
    )

-- The specification: the user's edges that Joplin lacks, or whose note or tag is not indexed.
abbrev pub stale : ℕ → List JoplinNoteTagRef → Index → NoteTagRow → Bool
stale user active db e =
    e.user_id == user
    && (not (
          any (λ r. same r.note_joplin_id e.note_joplin_id && same r.tag_joplin_id e.tag_joplin_id)
            active)
        || not (
            any (note_is user e.note_joplin_id) db.notes
            && any (tag_is user e.tag_joplin_id) db.tags))

stale_either : (a b c d : Bool) → ((a && b) || (a && (not c || not d))) ≡ (a && (b || not (c && d)))
stale_either a b c d = ground arith

-- An indexed edge purges the edges that are gone.
purges-gone :
    (user : ℕ) (active : List JoplinNoteTagRef) (e : NoteTagRow) (x : NoteTagRow)
    → x.user_id == user && purges user active e x ≡ true
    → gone user active e ≡ true
purges-gone user active e x h =
    let own : e.user_id == user ≡ true = ground arith in
    let lacks : not (is_active_edge active x.note_joplin_id x.tag_joplin_id) ≡ true =
      ground arith in
    let same_note : e.note_joplin_id ≡ x.note_joplin_id =
      same-eq e.note_joplin_id x.note_joplin_id (ground arith) in
    let same_tag : e.tag_joplin_id ≡ x.tag_joplin_id =
      same-eq e.tag_joplin_id x.tag_joplin_id (ground arith) in
    and_not (e.user_id == user) (is_active_edge active e.note_joplin_id e.tag_joplin_id)
      (is_active_edge active x.note_joplin_id x.tag_joplin_id) own
      (ap (λ n. is_active_edge active n e.tag_joplin_id) same_note
        ∙ ap (λ t. is_active_edge active x.note_joplin_id t) same_tag)
      lacks

purges_itself :
    (user : ℕ) (active : List JoplinNoteTagRef) (e : NoteTagRow)
    → gone user active e ≡ true
    → e.user_id == user && purges user active e e ≡ true
purges_itself user active e h =
    let of_note = same_refl e.note_joplin_id in
    let of_tag = same_refl e.tag_joplin_id in ground arith

any-false :
    {A : Type 0} (p : A → Bool) (goal : Bool) (xs : List A)
    → ((x : A) → p x ≡ true → goal ≡ true)
    → goal ≡ false
    → any p xs ≡ false
any-false p goal [] h k = refl
any-false p goal (x ∷ xs) h k = elim (Bool-cases (p x)) [
  | inl holds ↦ let bad : true ≡ false = sym (h x holds) ∙ k in absurd cc
  | inr fails ↦ rw (fails) (any-false p goal xs h k)
]

any-purges :
    (user : ℕ) (active : List JoplinNoteTagRef) (edges : List NoteTagRow)
    → All
        (λ e. any (λ x. x.user_id == user && purges user active e x) edges ≡ gone user active e)
        edges
any-purges user active edges =
    weaken
      (λ e found. elim (Bool-cases (gone user active e)) [
        | inl holds ↦ found (purges_itself user active e holds) ∙ sym holds
        | inr fails ↦
            any-false (λ x. x.user_id == user && purges user active e x) (gone user active e) edges
              (λ x. purges-gone user active e x) fails
            ∙ sym fails
      ])
      edges (any_own (λ e x. x.user_id == user && purges user active e x) edges)

-- The loop over the indexed edges deletes those that are gone.
purged_edges :
    (user : ℕ) (active : List JoplinNoteTagRef) (db : Index)
    → delete_where (λ e. any (purges user active e) (indexed_note_tag_refs user db)) db.note_tags
      ≡ delete_where (gone user active) db.note_tags
unfolding indexed_note_tag_refs
purged_edges user active db =
    ap (λ p. delete_where p db.note_tags)
      (fun_ext λ e.
        any-sort (purges user active e) edge_before (filter (λ r. r.user_id == user) db.note_tags)
        ∙ any-filter (purges user active e) (λ r. r.user_id == user) db.note_tags)
    ∙ delete_cong (λ e. any (λ x. x.user_id == user && purges user active e x) db.note_tags)
        (gone user active) db.note_tags (any-purges user active db.note_tags)

-- The reconciliation of the edges removes exactly the user's edges that the source does not hold active
-- or whose note or tag is not indexed, changes no other table, and counts the edges that it removed.
pub reconcile_note_tag_exact :
    (user : ℕ) (active : List JoplinNoteTagRef) (db : Index)
    → let done = reconcile_note_tag_hard_deletes user active db in
      (done.tables ≡ record db { note_tags = delete_where (stale user active db) db.note_tags })
      × (done.reconciled + length done.tables.note_tags ≡ length db.note_tags)
unfolding reconcile_note_tag_hard_deletes prune_dangling_note_tag_edges
reconcile_note_tag_exact user active db =
    let start : Reconciled = record { reconciled = 0; tables = db } in
    let purged = reconcile_edges user active (indexed_note_tag_refs user db) start in
    let (tables, counted) = reconcile_edges_lem user active (indexed_note_tag_refs user db) start in
    let left : purged.tables
        ≡ record db { note_tags = delete_where (gone user active) db.note_tags } =
      tables ∙ ap (λ l. record db { note_tags = l }) (purged_edges user active db) in
    (
      ap {A = Index} (λ t. record t { note_tags = delete_where (dangling user t) t.note_tags }) left
          ∙ ap (λ l. record db { note_tags = l })
              (delete_twice (dangling user db) (gone user active) db.note_tags
                ∙ ap (λ p. delete_where p db.note_tags)
                    (fun_ext λ e.
                      stale_either (e.user_id == user)
                        (not (is_active_edge active e.note_joplin_id e.tag_joplin_id))
                        (any (note_is user e.note_joplin_id) db.notes)
                        (any (tag_is user e.tag_joplin_id) db.tags))),
      omega (
        arith,
        counted,
        length-delete_where (dangling user purged.tables) purged.tables.note_tags,
      ),
    )
