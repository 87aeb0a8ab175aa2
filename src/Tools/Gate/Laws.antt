-- ===== src/Tools/Gate/Laws.antt =====
-- Whom the gate of the tools lets in, and what it leaves for the indexer.
use joplin_mcp_rust.Prelude.{
  ℕ, ◌≡◌, refl, Bool, true, false, some, ok, err, subst, ap, sym, ◌∙◌, Option-cases, inl, inr,
}
use joplin_mcp_rust.Time.{DateTime}
use joplin_mcp_rust.Tools.Error
use joplin_mcp_rust.Tools.Error.{ToolResult, from_db}
use joplin_mcp_rust.Tools.Gate.{
  snapshot, after_wake_up, state_of, gate_index_state, tool_gate_should_request_index_wake_up,
  ready_index_metadata,
}
use joplin_mcp_rust.Indexer.State.{
  IndexStatus, empty, building, ready, stale, failed, StateRow, Table, as_str, IndexConfig, is_due,
  is_servable_status,
}
use joplin_mcp_rust.Indexer.State.Laws.{servable, request_index_refresh_now-is_due}
use joplin_mcp_rust.Indexer.State.Steps.{Reachable, Reachable-Known, Known}

-- The tools' name of an indexer's status.
abbrev read : IndexStatus → Error.IndexStatus
read empty = Error.empty
read building = Error.rebuilding
read ready = Error.ready
read failed = Error.error
read stale = Error.stale

abbrev pub is_ok : {A : Type 0} → ToolResult A → Bool
is_ok (ok a) = true
is_ok (err e) = false

-- What the gate does with a status that the indexer writes.
of_known : (status : IndexStatus) → from_db (as_str status) ≡ ok (read status)
unfolding from_db
of_known empty = refl
of_known building = refl
of_known ready = refl
of_known failed = refl
of_known stale = refl

snapshot_of :
    (row : StateRow) (status : IndexStatus)
    → row.status ≡ as_str status
    → snapshot row ≡ ok (state_of row (read status))
unfolding snapshot
snapshot_of row status text = rw (text, of_known status) refl

gate_of :
    (user : ℕ) (now : DateTime) (table : Table) (row : StateRow) (status : IndexStatus)
    → table user ≡ some row
    → row.status ≡ as_str status
    → ready_index_metadata user now table
      ≡ after_wake_up (ok (some (state_of row (read status)))) user now table
unfolding ready_index_metadata
gate_of user now table row status there text =
    rw (there, ready_index_metadata, snapshot_of row status text) refl

answer_of :
    (row : StateRow) (status : IndexStatus)
    → row.status ≡ as_str status
    → is_ok (gate_index_state (some (state_of row (read status)))) ≡ is_servable_status row.status
unfolding gate_index_state
answer_of row empty text = rw text refl
answer_of row building text = rw text refl
answer_of row ready text = rw text refl
answer_of row failed text = rw text refl
answer_of row stale text = rw text refl

-- In every state of the index that the program reaches, the gate lets a user's tools run exactly if
-- the indexer counts the user's index as servable.
pub ready_index_metadata_iff :
    (table : Table) (user : ℕ) (now : DateTime)
    → Reachable table
    → is_ok ((ready_index_metadata user now table).0) ≡ servable (table user)
unfolding ready_index_metadata gate_index_state
ready_index_metadata_iff table user now reachable = elim (Option-cases (table user)) [
  | inl absent ↦ rw (absent, ready_index_metadata) refl
  | inr (row, there) ↦
      let (status, text) : Known (some row) = subst Known there (Reachable-Known reachable user) in
      rw (gate_of user now table row status there text, there) (answer_of row status text)
]

due_of :
    (user : ℕ) (now later : DateTime) (table : Table) (config : IndexConfig) (row : StateRow)
    (status : IndexStatus)
    → table user ≡ some row
    → row.status ≡ as_str status
    → is_ok (gate_index_state (some (state_of row (read status)))) ≡ false
    → is_due
        ((after_wake_up (ok (some (state_of row (read status)))) user now table).1 user)
        config
        later
      ≡ true
unfolding gate_index_state tool_gate_should_request_index_wake_up is_due
due_of user now later table config row empty there text refused =
    request_index_refresh_now-is_due user now later table config
due_of user now later table config row building there text refused = rw (there, is_due, text) refl
due_of user now later table config row ready there text refused = absurd cc
due_of user now later table config row failed there text refused =
    request_index_refresh_now-is_due user now later table config
due_of user now later table config row stale there text refused = absurd cc

-- In every state of the index that the program reaches, a user whose tools the gate refuses is due
-- for a refresh behind the call, at any later time and under any configuration.
pub refused-is_due :
    (table : Table) (user : ℕ) (now later : DateTime) (config : IndexConfig)
    → Reachable table
    → is_ok ((ready_index_metadata user now table).0) ≡ false
    → is_due ((ready_index_metadata user now table).1 user) config later ≡ true
unfolding ready_index_metadata gate_index_state tool_gate_should_request_index_wake_up
refused-is_due table user now later config reachable refused = elim (Option-cases (table user)) [
  | inl absent ↦
      rw (absent, ready_index_metadata)
        (request_index_refresh_now-is_due user now later table config)
  | inr (row, there) ↦
      let (status, text) : Known (some row) = subst Known there (Reachable-Known reachable user) in
      let gate = gate_of user now table row status there text in
      rw gate (
        due_of user now later table config row status there text
          (ap (λ r. is_ok (r.0)) (sym gate) ∙ refused))
]
