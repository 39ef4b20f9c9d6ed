-- ===== src/Runtime/Store/Requests.antt =====
-- `create_decision_request` and `resolve_decision_request` of src/artifex/runtime/store.py. The
-- column `blocked_from_states` holds the states of the workstreams that a request has blocked.
pub mod Blocking
use artifex_dev.Prelude.{
  ℕ, String, Bool, true, false, ◌&&◌, Option, none, some, List, [], ◌∷◌, if◌then◌else◌, Result,
  pure, fail, gets, modify, raise_if, lift, ◌>>=◌, ◌>>◌, Dict, lookup, put, str_eq,
}
use artifex_dev.Runtime.Actor.{ActorLike, is_unidentified, actor_principal}
use artifex_dev.Runtime.Json.{number, text, texts, field, done}
use artifex_dev.Runtime.Store.Tables.{
  StoreError, unidentified_actor, integrity_error, lost_race, no_affected_workstreams,
  request_not_open, Workstream, DecisionRequest, FenceToken, Db, Method, transaction, assert_fence,
  audit, changed,
}
use artifex_dev.Runtime.Store.Transitions.{is_some, move}

-- `AND project_id = ?`
abbrev of_project : String → Option Workstream → Option Workstream
of_project project_id none = none
of_project project_id (some w) = if str_eq w.project_id project_id then some w else none

-- `UPDATE workstreams SET state = 'BLOCKED' .. WHERE .. AND state = ?`
unfoldable pub block_workstream : String → String → String → ℕ → Db → Result StoreError Db
block_workstream project_id workstream_id expected now db =
    changed lost_race (λ w. record db { workstreams = put workstream_id w db.workstreams })
      (move (λ (w : Workstream). w.state) (λ w. record w { state = "BLOCKED"; updated_at = now })
        expected (of_project project_id (lookup workstream_id db.workstreams)))

-- `UPDATE workstreams SET state = ? .. WHERE .. AND state = 'BLOCKED'`
unfoldable pub resume_workstream : String → String → ℕ → Db → Result StoreError Db
resume_workstream workstream_id target now db =
    changed lost_race (λ w. record db { workstreams = put workstream_id w db.workstreams })
      (move (λ (w : Workstream). w.state) (λ w. record w { state = target; updated_at = now })
        "BLOCKED" (lookup workstream_id db.workstreams))

-- `UPDATE decision_requests SET state = 'RESOLVED' .. WHERE .. AND state = 'OPEN'`
unfoldable pub close_request : String → String → String → String → ℕ → Db → Result StoreError Db
close_request id outcome resolution resolved_by now db =
    changed lost_race (λ r. record db { decision_requests = put id r db.decision_requests })
      (move (λ (r : DecisionRequest). r.state)
        (λ r. record r {
          state = "RESOLVED";
          outcome = some outcome;
          resolution = some resolution;
          resolved_by = some resolved_by;
          resolved_at = some now;
        })
        "OPEN" (lookup id db.decision_requests))

-- `SELECT * FROM decision_requests WHERE decision_request_id = ? AND state = 'OPEN'`
abbrev pub open_request : String → Db → Option DecisionRequest
open_request id db =
    move (λ (r : DecisionRequest). r.state) (λ r. r) "OPEN" (lookup id db.decision_requests)

abbrev is_nil : Dict String → Bool
is_nil [] = true
is_nil (_ ∷ _) = false

module _ (scrub_secrets : String → String) where
  -- The loop of `create_decision_request`.
  unfoldable pub block_workstreams :
      String → String → Dict String → ℕ → ActorLike → Method (Unit {0})
  block_workstreams project_id request_id [] now actor = pure tt
  block_workstreams project_id request_id ((workstream_id, expected) ∷ rest) now actor = do
    updated ← gets (block_workstream project_id workstream_id expected now)
    db ← lift updated
    modify (λ _. db)
    audit scrub_secrets "WORKSTREAM_BLOCKED_BY_DECISION" actor "workstream" workstream_id now
        (field "decision_request_id" (text request_id)
          (field "from" (text expected) (field "to" (text "BLOCKED") done)))
        none
    block_workstreams project_id request_id rest now actor

  -- `create_decision_request`; the row has the fields of `values`.
  unfoldable pub create_decision_request :
      DecisionRequest → FenceToken → ℕ → ActorLike → Method (Unit {0})
  create_decision_request r token now actor = do
    raise_if unidentified_actor (is_unidentified actor)
    transaction (do
      assert_fence token now
      raise_if no_affected_workstreams (is_nil r.blocked_from_states)
      block_workstreams r.project_id r.decision_request_id r.blocked_from_states now actor
      refused ← gets (λ db. is_some (lookup r.decision_request_id db.decision_requests))
      raise_if integrity_error refused
      modify
          (λ db. record db { decision_requests = put r.decision_request_id r db.decision_requests })
      audit scrub_secrets "DECISION_REQUEST_CREATED" actor "decision_request" r.decision_request_id
          now
          (field "materiality" (text r.materiality)
            (field "affected_workstreams" (texts r.affected_workstreams) done))
          none)

  -- The loop of `resolve_decision_request`.
  unfoldable pub resume_workstreams : String → Dict String → ℕ → ActorLike → Method (Unit {0})
  resume_workstreams request_id [] now actor = pure tt
  resume_workstreams request_id ((workstream_id, target) ∷ rest) now actor = do
    updated ← gets (resume_workstream workstream_id target now)
    db ← lift updated
    modify (λ _. db)
    audit scrub_secrets "WORKSTREAM_RESUMED_AFTER_DECISION" actor "workstream" workstream_id now
        (field "decision_request_id" (text request_id)
          (field "from" (text "BLOCKED") (field "to" (text target) done)))
        none
    resume_workstreams request_id rest now actor

  -- `if restore_workstreams`
  abbrev pub resume_if : Bool → String → Dict String → ℕ → ActorLike → Method (Unit {0})
  resume_if false request_id states now actor = pure tt
  resume_if true request_id states now actor = resume_workstreams request_id states now actor

  -- The rest of `resolve_decision_request`, by the open row that it has found.
  unfoldable pub resolve_open :
      Option DecisionRequest → String → String → String → Bool → ℕ → ActorLike → Method (Unit {0})
  resolve_open none id outcome resolution restore now actor = fail request_not_open
  resolve_open (some r) id outcome resolution restore now actor = do
    resume_if restore id r.blocked_from_states now actor
    updated ← gets (close_request id outcome resolution (actor_principal actor).actor_id now)
    db ← lift updated
    modify (λ _. db)
    audit scrub_secrets "DECISION_REQUEST_RESOLVED" actor "decision_request" id now
        (field "outcome" (text outcome) (field "resolution" (text resolution) done)) none

  unfoldable pub resolve_decision_request :
      String → String → String → Bool → FenceToken → ℕ → ActorLike → Method (Unit {0})
  resolve_decision_request id outcome resolution restore_workstreams token now actor = do
    raise_if unidentified_actor (is_unidentified actor)
    transaction (do
      assert_fence token now
      row ← gets (open_request id)
      resolve_open row id outcome resolution restore_workstreams now actor)
