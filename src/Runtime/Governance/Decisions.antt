-- ===== src/Runtime/Governance/Decisions.antt =====
-- `MaterialDecisionManager` of src/artifex/runtime/governance.py. A new identifier is an argument.
pub mod Restoring
use artifex_dev.Prelude.{
  ℕ, String, Bool, true, false, not, ◌&&◌, ◌||◌, Option, none, some, List, [], ◌∷◌, if◌then◌else◌,
  Result, ok, raise, and_then, pure, gets, require, raise_if, lift, ◌>>=◌, ◌>>◌, Dict, lookup,
  sort_keys, str_eq, is_blank, is_empty, is_distinct,
}
use artifex_dev.Runtime.Actor.{ActorType, ActorPrincipal, principal, require_action, user}
use artifex_dev.Runtime.Envelope.{Materiality, operational, tactical, strategic_material}
use artifex_dev.Runtime.Store.Tables.{FenceToken, Db, Run, Workstream, DecisionRequest}
use artifex_dev.Runtime.Store.Requests.{create_decision_request, resolve_decision_request}
use artifex_dev.Runtime.Governance.Base.{
  GovernanceError, run_outside_project, workstream_outside_project, not_strategic, question_missing,
  workstreams_repeated, cannot_block, unknown_request, not_a_user, resolution_missing,
  unknown_entity, blocked_by_decision, bad_value, failed_assertion, Method, stored, authorize,
}
use artifex_dev.Runtime.Governance.Sessions.{run_in, or_fresh}

pub data DecisionOutcome : Type 0 where
  approve reject rework : DecisionOutcome

-- `DecisionOutcome.value`
abbrev pub outcome_name : DecisionOutcome → String
outcome_name approve = "APPROVE"
outcome_name reject = "REJECT"
outcome_name rework = "REWORK"

abbrev pub is_approve : DecisionOutcome → Bool
is_approve approve = true
is_approve _ = false

abbrev pub is_strategic : Materiality → Bool
is_strategic strategic_material = true
is_strategic _ = false

-- `WorkstreamState(value)` has no other values.
abbrev is_workstream_state : String → Bool
is_workstream_state s =
    str_eq s "READY"
    || str_eq s "ACTIVE"
    || str_eq s "BLOCKED"
    || str_eq s "COMPLETE"
    || str_eq s "CANCELLED"

-- The state of one affected workstream, or the error of the loop's body.
unfoldable pub blockable : String → Option Workstream → Result GovernanceError String
blockable project_id none = raise workstream_outside_project
blockable project_id (some w) =
    if not (str_eq w.project_id project_id)
    then raise workstream_outside_project
    else if not (is_workstream_state w.state)
    then raise bad_value
    else if not (str_eq w.state "READY" || str_eq w.state "ACTIVE")
    then raise cannot_block
    else ok w.state

-- The loop over the affected workstreams, which are distinct, with the dictionary that it builds.
unfoldable pub states_of :
    String → List String → Dict Workstream → Result GovernanceError (Dict String)
states_of project_id [] workstreams = ok []
states_of project_id (id ∷ ids) workstreams =
    and_then (blockable project_id (lookup id workstreams))
      λ state. and_then (states_of project_id ids workstreams) λ rest. ok ((id, state) ∷ rest)

unfoldable pub keys : Dict String → List String
keys [] = []
keys ((k, v) ∷ d) = k ∷ keys d

abbrev pub is_user : ActorType → Bool
is_user user = true
is_user _ = false

-- `value = self.store.decision_request(..)`, which must be there.
unfoldable pub stored_request : String → Method DecisionRequest
stored_request request_id = do
  value ← gets (λ db. lookup request_id db.decision_requests)
  require failed_assertion value

abbrev pub check_run : String → Option String → Method (Unit {0})
check_run project_id none = pure tt
check_run project_id (some run_id) = do
  run ← gets (λ db. lookup run_id db.runs)
  raise_if run_outside_project (not (run_in project_id run))

module _ (scrub_secrets : String → String) where
  -- The end of `create`, with the states of the workstreams to block.
  unfoldable pub request :
      String
      → String
      → Option String
      → String
      → ActorPrincipal
      → Dict String
      → FenceToken
      → ℕ
      → Method DecisionRequest
  request identifier project_id run_id question p states token now = do
    stored (
        create_decision_request scrub_secrets
          (record {
            decision_request_id = identifier;
            project_id = project_id;
            run_id = run_id;
            requested_by = p.actor_id;
            materiality = "STRATEGIC_MATERIAL";
            question = question;
            affected_workstreams = keys (sort_keys states);
            blocked_from_states = sort_keys states;
            state = "OPEN";
            outcome = none;
            resolution = none;
            resolved_by = none;
            created_at = now;
            resolved_at = none;
          })
          token now (principal p))
    stored_request identifier

  -- `checked` is the clock at the check of the actor's authority, here and below.
  unfoldable pub create :
      String
      → String
      → List String
      → ActorPrincipal
      → Option String
      → Option String
      → String
      → Materiality
      → FenceToken
      → ℕ
      → ℕ
      → Method DecisionRequest
  create project_id question affected p run_id request_id fresh materiality token checked now = do
    authorize (require_action p "governance:request-decision" project_id checked)
    raise_if not_strategic (not (is_strategic materiality))
    raise_if question_missing (is_blank question || is_empty affected)
    raise_if workstreams_repeated (not (is_distinct affected))
    check_run project_id run_id
    found ← gets (λ db. states_of project_id affected db.workstreams)
    states ← lift found
    request (or_fresh request_id fresh) project_id run_id question p states token now

  unfoldable pub resolve :
      String
      → DecisionOutcome
      → String
      → ActorPrincipal
      → FenceToken
      → ℕ
      → ℕ
      → Method DecisionRequest
  resolve request_id outcome resolution p token checked now = do
    row ← gets (λ db. lookup request_id db.decision_requests)
    value ← require unknown_request row
    authorize (require_action p "governance:resolve-decision" value.project_id checked)
    raise_if not_a_user (not (is_user p.actor_type))
    raise_if resolution_missing (is_blank resolution)
    stored (
        resolve_decision_request scrub_secrets request_id (outcome_name outcome) resolution
          (is_approve outcome) token now (principal p))
    stored_request request_id

unfoldable pub assert_project_job_unblocked : String → Method (Unit {0})
assert_project_job_unblocked project_job_id = do
  found_job ← gets (λ db. lookup project_job_id db.project_jobs)
  job ← require unknown_entity found_job
  found_run ← gets (λ db. lookup job.run_id db.runs)
  run ← require failed_assertion found_run
  found ← gets (λ db. lookup run.workstream_id db.workstreams)
  workstream ← require failed_assertion found
  raise_if blocked_by_decision (str_eq workstream.state "BLOCKED")
