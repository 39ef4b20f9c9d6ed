-- ===== src/Runtime/Coordinator/Attempts.antt =====
-- The life of an attempt in src/artifex/runtime/coordinator.py: start and finish.
pub mod Guards
use artifex_dev.Prelude.{
  ℕ, String, Bool, true, false, not, ◌&&◌, ◌||◌, Option, none, some, List, [], ◌∷◌, ◌++◌,
  if◌then◌else◌, ok, raise, pure, fail, gets, raise_if, ◌>>=◌, ◌>>◌, Dict, lookup, str_eq, contains,
  is_blank, is_empty,
}
use artifex_dev.Runtime.Actor.{
  ActorType, ActorLike, named, principal, actor_principal, require_action, user, artifex_service,
  interaction_client, provider, agent, automation_system_actor,
}
use artifex_dev.Runtime.Json.{text, field, done}
use artifex_dev.Runtime.Store.Tables.{
  FenceToken, Db, Workstream, Run, ProjectJob, Attempt, DispatchAuthorization,
}
use artifex_dev.Runtime.Store.Transitions.{
  Change, Updates, no_updates, is_some, transition, transition_batch,
}
use artifex_dev.Runtime.Store.Records.{dispatch_authorization, record_event}
use artifex_dev.Runtime.Coordinator.Base.{
  CoordinatorError, unauthorized, forbidden_actor_type, envelope_missing, not_dispatched,
  claim_missing, not_cancellable, unknown_remains, recovered_claim_missing, not_reconciled, Method,
  stored, authorize, require_workstream, require_run, require_job, require_attempt,
  require_envelope, change,
}
use artifex_dev.Runtime.Coordinator.Creation.{create_attempt}

-- `allowed_providers and dispatch_authorization(attempt_id) is None`
abbrev pub is_undispatched : List String → Option DispatchAuthorization → Bool
is_undispatched [] dispatch = false
is_undispatched (p ∷ ps) dispatch = not (is_some dispatch)

-- `isinstance(actor_id, ActorPrincipal) and actor_type not in {PROVIDER, ARTIFEX_SERVICE}`
abbrev may_not_submit_type : ActorType → Bool
may_not_submit_type provider = false
may_not_submit_type artifex_service = false
may_not_submit_type _ = true

abbrev may_not_submit : ActorLike → Bool
may_not_submit (named name) = false
may_not_submit (principal p) = may_not_submit_type p.actor_type

abbrev pub move_attempt : String → String → String → Updates → Change
move_attempt = change "attempts" "attempt_id"

abbrev pub move_job : String → String → String → Change
move_job id expected target = change "project_jobs" "project_job_id" id expected target no_updates

abbrev pub move_run : String → String → String → Change
move_run id expected target = change "runs" "run_id" id expected target no_updates

abbrev pub move_workstream : String → String → String → Change
move_workstream id expected target =
    change "workstreams" "workstream_id" id expected target no_updates

module _ (scrub_secrets : String → String) where
  -- `if state == expected: self._transition(..)`
  unfoldable pub move_from : String → Change → FenceToken → ℕ → ActorLike → Method (Unit {0})
  move_from state c token now actor_id =
      if str_eq state c.expected_state
      then stored (transition scrub_secrets c token now actor_id)
      else pure tt

  -- The transitions of `start_attempt`, each of its own transaction.
  unfoldable pub start_moves :
      String
      → Attempt
      → ProjectJob
      → Run
      → Workstream
      → FenceToken
      → ℕ
      → ActorLike
      → Method (Unit {0})
  start_moves attempt_id attempt job run workstream token now actor_id = do
    move_from workstream.state (move_workstream run.workstream_id "READY" "ACTIVE") token now
        actor_id
    move_from run.state (move_run job.run_id "PENDING" "RUNNING") token now actor_id
    move_from job.state (move_job attempt.project_job_id "PENDING" "RUNNING") token now actor_id
    stored (
        transition scrub_secrets (move_attempt attempt_id "PENDING" "RUNNING" no_updates) token now
          actor_id)

  unfoldable pub start_attempt : String → FenceToken → ℕ → ActorLike → Method (Unit {0})
  start_attempt attempt_id token now actor_id = do
    attempt ← require_attempt attempt_id
    job ← require_job attempt.project_job_id
    run ← require_run job.run_id
    workstream ← require_workstream run.workstream_id
    row ← require_envelope envelope_missing run
    dispatch ← gets (dispatch_authorization attempt_id)
    raise_if not_dispatched (is_undispatched row.payload.allowed_providers dispatch)
    start_moves attempt_id attempt job run workstream token now actor_id

  -- The part of `finish_attempt` for an attempt that was dispatched.
  unfoldable pub record_result :
      Option DispatchAuthorization
      → String
      → Attempt
      → String
      → FenceToken
      → ℕ
      → ActorLike
      → Option String
      → Method (Unit {0})
  record_result none attempt_id attempt safe_claim token now actor_id correlation_id = pure tt
  record_result (some d) attempt_id attempt safe_claim token now actor_id correlation_id = do
    job ← require_job attempt.project_job_id
    run ← require_run job.run_id
    authorize (require_action (actor_principal actor_id) "result:submit" run.project_id now)
    raise_if forbidden_actor_type (may_not_submit actor_id)
    stored (
        record_event scrub_secrets "PROVIDER_RESULT_RECORDED" "attempts" attempt_id
          (field "result_claim" (text safe_claim) (
            field "provider_id" (text d.provider_id) (
              field "provider_role" (text d.provider_role)
                (field "envelope_fingerprint" (text d.envelope_fingerprint) done))))
          token now (principal (actor_principal actor_id)) correlation_id)

  abbrev pub finish_changes : String → String → String → List Change
  finish_changes attempt_id project_job_id safe_claim =
      move_attempt attempt_id "RUNNING" "FINISHED"
        (record { result_claim = some safe_claim; reconciliation_outcome = none })
      ∷ move_job project_job_id "RUNNING" "FINISHED"
      ∷ []

  -- The end of `finish_attempt`: the batch and the last event.
  unfoldable pub end_attempt :
      String → String → String → FenceToken → ℕ → ActorLike → Option String → Method (Unit {0})
  end_attempt attempt_id project_job_id safe_claim token now actor_id correlation_id = do
    stored (
        transition_batch scrub_secrets (finish_changes attempt_id project_job_id safe_claim) token
          now actor_id)
    stored (
        record_event scrub_secrets "ATTEMPT_FINISHED" "attempts" attempt_id
          (field "project_job_id" (text project_job_id)
            (field "result_claim" (text safe_claim) done))
          token now actor_id correlation_id)

  unfoldable pub finish_attempt :
      String → String → FenceToken → ℕ → ActorLike → Option String → Method (Unit {0})
  finish_attempt attempt_id result_claim token now actor_id correlation_id = do
    raise_if claim_missing (is_blank result_claim)
    let safe_claim = scrub_secrets result_claim
    attempt ← require_attempt attempt_id
    dispatch ← gets (dispatch_authorization attempt_id)
    record_result dispatch attempt_id attempt safe_claim token now actor_id correlation_id
    end_attempt attempt_id attempt.project_job_id safe_claim token now actor_id correlation_id
