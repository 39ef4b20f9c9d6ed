-- ===== src/Runtime/Coordinator/Reconciliation.antt =====
-- The other methods on an attempt of src/artifex/runtime/coordinator.py: cancel, UNKNOWN and its
-- reconciliation, retry, and the end of a run.
pub mod Outcomes
pub mod Settling
use artifex_dev.Prelude.{
  ℕ, String, Bool, true, false, not, ◌&&◌, ◌||◌, Option, none, some, List, [], ◌∷◌, ◌++◌,
  if◌then◌else◌, ok, raise, pure, fail, gets, raise_if, ◌>>=◌, ◌>>◌, Dict, lookup, str_eq, contains,
  is_blank, is_empty,
}
use artifex_dev.Runtime.Actor.{
  ActorType, ActorLike, named, principal, actor_principal, require_action, user, artifex_service,
  interaction_client, provider, agent, automation_system_actor,
}
use artifex_dev.Runtime.Json.{text, field, done}
use artifex_dev.Runtime.Store.Tables.{
  FenceToken, Db, Workstream, Run, ProjectJob, Attempt, DispatchAuthorization,
}
use artifex_dev.Runtime.Store.Transitions.{
  Change, Updates, no_updates, is_some, transition, transition_batch,
}
use artifex_dev.Runtime.Store.Records.{dispatch_authorization, record_event}
use artifex_dev.Runtime.Coordinator.Base.{
  CoordinatorError, unauthorized, forbidden_actor_type, envelope_missing, not_dispatched,
  claim_missing, not_cancellable, unknown_remains, recovered_claim_missing, not_reconciled, Method,
  stored, authorize, require_workstream, require_run, require_job, require_attempt,
  require_envelope, change,
}
use artifex_dev.Runtime.Coordinator.Creation.{create_attempt}
use artifex_dev.Runtime.Coordinator.Attempts.{move_attempt, move_job, move_run, move_workstream}

-- `ReconciliationOutcome` of src/artifex/runtime/models.py
pub data ReconciliationOutcome : Type 0 where
  recovered_finished safe_to_retry still_unknown : ReconciliationOutcome

-- The jobs of `snapshot_run`, and the states of `terminal`.
unfoldable pub jobs_of : String → Dict ProjectJob → List ProjectJob
jobs_of run_id [] = []
jobs_of run_id ((k, j) ∷ rest) =
    let others = jobs_of run_id rest in if str_eq j.run_id run_id then j ∷ others else others

abbrev pub is_terminal : String → Bool
is_terminal state =
    str_eq state "ACCEPTED"
    || str_eq state "REJECTED"
    || str_eq state "REQUIRE_APPROVAL"
    || str_eq state "PROMOTION_CONFLICT"
    || str_eq state "CANCELLED"

unfoldable pub all_terminal : List ProjectJob → Bool
all_terminal [] = true
all_terminal (j ∷ js) = is_terminal j.state && all_terminal js

-- `not jobs or any(item["state"] not in terminal ..)`
abbrev pub is_unsettled : List ProjectJob → Bool
is_unsettled [] = true
is_unsettled (j ∷ js) = not (all_terminal (j ∷ js))

module _ (scrub_secrets : String → String) where
  -- The changes of `settle_run_for_job`.
  abbrev settle_changes : Run → String → Workstream → List Change
  settle_changes run run_id workstream =
      move_run run_id "RUNNING" "COMPLETED"
      ∷ (if str_eq workstream.state "ACTIVE"
          then move_workstream run.workstream_id "ACTIVE" "COMPLETE" ∷ []
          else [])

  -- The end of `settle_run_for_job`; `stays` says that it returns early.
  unfoldable pub settle : Bool → Run → String → FenceToken → ℕ → ActorLike → Method (Unit {0})
  settle true run run_id token now actor_id = pure tt
  settle false run run_id token now actor_id = do
    workstream ← require_workstream run.workstream_id
    stored
        (transition_batch scrub_secrets (settle_changes run run_id workstream) token now actor_id)

  unfoldable pub settle_run_for_job : String → FenceToken → ℕ → ActorLike → Method (Unit {0})
  settle_run_for_job project_job_id token now actor_id = do
    job ← require_job project_job_id
    run ← require_run job.run_id
    jobs ← gets (λ db. jobs_of job.run_id db.project_jobs)
    settle (not (str_eq run.state "RUNNING") || is_unsettled jobs) run job.run_id token now actor_id

  -- `settled` is the clock in `settle_run_for_job`.
  unfoldable pub cancel_attempt : String → FenceToken → ℕ → ℕ → ActorLike → Method (Unit {0})
  cancel_attempt attempt_id token now settled actor_id = do
    attempt ← require_attempt attempt_id
    raise_if not_cancellable
        (not (str_eq attempt.state "PENDING" || str_eq attempt.state "RUNNING"))
    job ← require_job attempt.project_job_id
    stored (
        transition_batch scrub_secrets
          (move_attempt attempt_id attempt.state "CANCELLED" no_updates
            ∷ move_job attempt.project_job_id job.state "CANCELLED"
            ∷ [])
          token now actor_id)
    settle_run_for_job attempt.project_job_id token settled actor_id

  unfoldable pub mark_unknown : String → FenceToken → ℕ → ActorLike → Method (Unit {0})
  mark_unknown attempt_id token now actor_id = do
    attempt ← require_attempt attempt_id
    job ← require_job attempt.project_job_id
    stored (
        transition_batch scrub_secrets
          (move_attempt attempt_id "RUNNING" "UNKNOWN" no_updates
            ∷ move_job attempt.project_job_id "RUNNING" "UNKNOWN"
            ∷ move_run job.run_id "RUNNING" "WAITING_RECONCILIATION"
            ∷ [])
          token now actor_id)

  unfoldable pub begin_reconciliation : String → FenceToken → ℕ → ActorLike → Method (Unit {0})
  begin_reconciliation attempt_id token now actor_id = stored (
      transition scrub_secrets (move_attempt attempt_id "UNKNOWN" "NEEDS_RECONCILIATION" no_updates)
        token now actor_id)

  abbrev is_present : Option String → Bool
  is_present none = false
  is_present (some claim) = not (str_eq claim "")

  -- The changes for an outcome that ends the wait; the job and the run follow the attempt.
  abbrev reconcile_changes : String → String → String → String → String → Updates → List Change
  reconcile_changes attempt_id project_job_id run_id attempt_target job_target updates =
      move_attempt attempt_id "NEEDS_RECONCILIATION" attempt_target updates
      ∷ move_job project_job_id "UNKNOWN" job_target
      ∷ move_run run_id "WAITING_RECONCILIATION" "RUNNING"
      ∷ []

  abbrev reconcile_as :
      ReconciliationOutcome
      → String
      → String
      → String
      → FenceToken
      → ℕ
      → ActorLike
      → Option String
      → Method (Unit {0})
  reconcile_as still_unknown attempt_id job_id run_id token now actor_id recovered_claim =
      fail unknown_remains
  reconcile_as recovered_finished attempt_id job_id run_id token now actor_id recovered_claim = do
    raise_if recovered_claim_missing (not (is_present recovered_claim))
    stored (
        transition_batch scrub_secrets
          (reconcile_changes attempt_id job_id run_id "FINISHED" "FINISHED" (record {
            result_claim = recovered_claim;
            reconciliation_outcome = some "RECOVERED_FINISHED";
          }))
          token now actor_id)
  reconcile_as safe_to_retry attempt_id job_id run_id token now actor_id recovered_claim = stored (
      transition_batch scrub_secrets
        (reconcile_changes attempt_id job_id run_id "RECONCILED_RETRYABLE" "RUNNING"
          (record { result_claim = none; reconciliation_outcome = some "SAFE_TO_RETRY" }))
        token now actor_id)

  unfoldable pub reconcile_attempt :
      String
      → ReconciliationOutcome
      → FenceToken
      → ℕ
      → ActorLike
      → Option String
      → Method (Unit {0})
  reconcile_attempt attempt_id outcome token now actor_id recovered_claim = do
    attempt ← require_attempt attempt_id
    job ← require_job attempt.project_job_id
    reconcile_as outcome attempt_id attempt.project_job_id job.run_id token now actor_id
        recovered_claim

  abbrev is_retryable : Attempt → Bool
  is_retryable a = str_eq a.state "RECONCILED_RETRYABLE" && safe a.reconciliation_outcome
    where
      safe : Option String → Bool
      safe none = false
      safe (some outcome) = str_eq outcome "SAFE_TO_RETRY"

  unfoldable pub retry_attempt : String → String → FenceToken → ℕ → ActorLike → Method (Unit {0})
  retry_attempt previous_attempt_id new_attempt_id token now actor_id = do
    previous ← require_attempt previous_attempt_id
    raise_if not_reconciled (not (is_retryable previous))
    create_attempt scrub_secrets new_attempt_id previous.project_job_id token now actor_id
