-- ===== src/Indexer/Rebuild/User/Laws.antt =====
-- A refresh that fails.
use joplin_mcp_rust.Prelude.{
  ℕ, ◌≡◌, refl, Bool, true, false, not, Option, none, some, Result, ok, err, if◌then◌else◌,
  map_option, String, ap, sym, ◌∙◌, ◌≢◌, some_injective,
}
use joplin_mcp_rust.Time.{DateTime}
use joplin_mcp_rust.Indexer.State.{
  Table, IndexConfig, record_incremental_failure, mark_stale_if_needed,
}
use joplin_mcp_rust.Indexer.State.Separate.{failures_are_separate}
use joplin_mcp_rust.Indexer.State.Laws.{servable, record_incremental_failure-servable}
use joplin_mcp_rust.Indexer.Parser.{Engine}
use joplin_mcp_rust.Indexer.Tables.{Index}
use joplin_mcp_rust.Indexer.Refresh.{JoplinSource, RefreshUser, Refreshed, Failure}
use joplin_mcp_rust.Indexer.Rebuild.Stream.{Committed}
use joplin_mcp_rust.Indexer.Rebuild.User.{
  RefreshOutcome, Outcome, after_rebuild, after_refresh, incremental_refresh_user,
}

-- The tables are as they were, but for the recorded failure of the user.
abbrev RolledBack : ℕ → DateTime → Index → Table → String → Outcome → Type 0
RolledBack user now db state error outcome =
    (outcome.rows ≡ db) × (outcome.index_state ≡ record_incremental_failure user error now state)

-- What the tools see behind it: the same rows, of the user an index that is servable exactly if it was and
-- holds the error, and of any other user the same state.
abbrev pub IsUndone : ℕ → Index → Table → String → Outcome → Type 0
IsUndone user db state error outcome =
    (outcome.rows ≡ db)
    × (servable (outcome.index_state user) ≡ servable (state user))
    × (map_option (λ r. r.last_error) (outcome.index_state user) ≡ some (some error))
    × ((other : ℕ) → user ≢ other → outcome.index_state other ≡ state other)

abbrev Fails : ℕ → DateTime → Index → Table → String → Outcome → Option Outcome → Type 0
Fails user now db state error outcome got =
    got ≡ some outcome → outcome.answer ≡ err error → RolledBack user now db state error outcome

abbrev answer_error : Result String RefreshOutcome → Option String
answer_error (ok done) = none
answer_error (err e) = some e

-- An outcome whose answer is no error did not fail with one.
not_failed :
    (user : ℕ) (now : DateTime) (db : Index) (state : Table) (error : String)
    (got outcome : Outcome)
    → answer_error got.answer ≡ none
    → some got ≡ some outcome
    → outcome.answer ≡ err error
    → RolledBack user now db state error outcome
not_failed user now db state error got outcome answered h failed =
    let clash : none ≡ some error =
      sym answered ∙ ap (λ o. answer_error o.answer) (some_injective h) ∙ ap answer_error failed in
    absurd cc

-- An outcome that kept the tables and recorded its error.
recorded_failure :
    (user : ℕ) (now : DateTime) (db : Index) (state : Table) (e error : String) (outcome : Outcome)
    → some (record {
      answer = err e;
      rows = db;
      index_state = record_incremental_failure user e now state;
    })
      ≡ some outcome
    → outcome.answer ≡ err error
    → RolledBack user now db state error outcome
recorded_failure user now db state e error outcome h failed =
    let got = some_injective h in
    let same_error : e ≡ error =
      some_injective (ap (λ o. answer_error o.answer) got ∙ ap answer_error failed) in
    (
      sym (ap (λ o. o.rows) got),
      sym (ap (λ o. o.index_state) got)
          ∙ ap (λ x. record_incremental_failure user x now state) same_error,
    )

failed_rebuild :
    (user : ℕ) (now : DateTime) (db : Index) (state : Table) (error : String)
    (done : Option (Result Failure Committed)) (outcome : Outcome)
    → map_option (after_rebuild user now (record { rows = db; index_state = state })) done
      ≡ some outcome
    → outcome.answer ≡ err error
    → RolledBack user now db state error outcome
failed_rebuild user now db state error none outcome h failed = absurd cc
failed_rebuild user now db state error (some (ok done)) outcome h failed =
    not_failed user now db state error
      (after_rebuild user now (record { rows = db; index_state = state }) (ok done)) outcome refl h
      failed
failed_rebuild user now db state error (some (err e)) outcome h failed =
    recorded_failure user now db state e.error error outcome h failed

failed_refresh :
    (user : ℕ) (now : DateTime) (db : Index) (state marked : Table) (error : String)
    (done : Option (Result Failure Refreshed)) (outcome : Outcome)
    → map_option (after_refresh user now (record { rows = db; index_state = state }) marked) done
      ≡ some outcome
    → outcome.answer ≡ err error
    → RolledBack user now db state error outcome
failed_refresh user now db state marked error none outcome h failed = absurd cc
failed_refresh user now db state marked error (some (ok done)) outcome h failed =
    not_failed user now db state error
      (after_refresh user now (record { rows = db; index_state = state }) marked (ok done)) outcome
      refl h failed
failed_refresh user now db state marked error (some (err e)) outcome h failed =
    recorded_failure user now db state e.error error outcome h failed

pub chosen :
    {A : Type 0} (P : A → Type 0) (test : Bool) (then_case else_case : A)
    → P then_case
    → P else_case
    → P (if test then then_case else else_case)
chosen P true then_case else_case holds fails = holds
chosen P false then_case else_case holds fails = fails

rolled_back :
    (e : Engine) (source : JoplinSource) (user : RefreshUser) (config : IndexConfig)
    (now : DateTime) (fuel : ℕ) (lock_acquired : Bool) (db : Index) (state : Table) (error : String)
    (outcome : Outcome)
    → Fails user.mcp_user_id now db state error outcome
        (incremental_refresh_user e source user config now fuel lock_acquired db state)
unfolding incremental_refresh_user
rolled_back e source user config now fuel lock_acquired db state error outcome =
    chosen (Fails user.mcp_user_id now db state error outcome) (not lock_acquired) _ _
      (not_failed user.mcp_user_id now db state error _ outcome refl)
      (chosen (Fails user.mcp_user_id now db state error outcome) _ _ _
        (failed_rebuild user.mcp_user_id now db state error _ outcome)
        (failed_refresh user.mcp_user_id now db state
          (mark_stale_if_needed user.mcp_user_id user.last_incremental_at
            config.refresh_interval_seconds now state)
          error _ outcome))

-- A refresh or rebuild of a user that answers with an error, whatever it had written by then, leaves the
-- derived tables as they were; the user's index is servable exactly if it was before and holds the error,
-- and the state of every other user is the same.
pub incremental_refresh_user-IsUndone :
    (e : Engine) (source : JoplinSource) (user : RefreshUser) (config : IndexConfig)
    (now : DateTime) (fuel : ℕ) (lock_acquired : Bool) (db : Index) (state : Table) (error : String)
    (outcome : Outcome)
    → incremental_refresh_user e source user config now fuel lock_acquired db state ≡ some outcome
    → outcome.answer ≡ err error
    → IsUndone user.mcp_user_id db state error outcome
incremental_refresh_user-IsUndone e source user config now fuel lock_acquired db state error outcome
      runs failed =
    let (rows, recorded) =
      rolled_back e source user config now fuel lock_acquired db state error outcome runs failed in
    let (serves, status, last_error) =
      record_incremental_failure-servable user.mcp_user_id error now state in
    (
      rows,
      ap (λ t. servable (t user.mcp_user_id)) recorded ∙ serves,
      ap (λ t. map_option (λ r. r.last_error) (t user.mcp_user_id)) recorded ∙ last_error,
      λ other differs.
          ap (λ t. t other) recorded
          ∙ (failures_are_separate user.mcp_user_id other now state differs true error).0,
    )
