-- ===== src/Runtime/Scenarios/Reconciling.antt =====
-- Runs of reconciliation, retry and the end of a run, and its theorems at concrete inputs.
use artifex_dev.Prelude.{String, ◌≤◌, ◌≡◌, ◌⊎◌, ◌≢◌, refl, true, none, some, ok, raise, lookup, put}
use artifex_dev.Runtime.Store.Tables.{Attempt, Db, ProjectJob}
use artifex_dev.Runtime.Coordinator.Base.{unknown_remains}
use artifex_dev.Runtime.Coordinator.Creation.{attempts_in, count}
use artifex_dev.Runtime.Coordinator.Reconciliation.{
  is_terminal, settle_run_for_job, safe_to_retry, still_unknown, reconcile_attempt, retry_attempt,
}
use artifex_dev.Runtime.Coordinator.Reconciliation.Outcomes
use artifex_dev.Runtime.Coordinator.Reconciliation.Settling
use artifex_dev.Runtime.Scenarios.{
  program, scrub, alice, job_in, run_in, row, attempt_in, world, carol,
}

abbrev waiting : Db
waiting = world "WAITING_RECONCILIATION" "UNKNOWN" "NEEDS_RECONCILIATION" none

reconciled : (reconcile_attempt scrub "a" safe_to_retry alice 110 carol none waiting).0 ≡ ok tt
unfolding program
reconciled = refl

reconcile_guarded_example :
    (safe_to_retry ≢ still_unknown)
    × (((attempt_in "NEEDS_RECONCILIATION" none).state ≡ "NEEDS_RECONCILIATION")
        × (((job_in "UNKNOWN").state ≡ "UNKNOWN")
            × ((run_in "WAITING_RECONCILIATION").state ≡ "WAITING_RECONCILIATION")))
unfolding program
reconcile_guarded_example =
    Outcomes.reconcile_guarded scrub "a" safe_to_retry alice 110 carol none waiting reconciled

blocked :
    (reconcile_attempt scrub "a" still_unknown alice 110 carol none waiting).0
    ≡ raise unknown_remains
unfolding program
blocked = refl

reconcile_atomic_example :
    (reconcile_attempt scrub "a" still_unknown alice 110 carol none waiting).1 ≡ waiting
reconcile_atomic_example =
    Outcomes.reconcile_atomic scrub "a" still_unknown alice 110 carol none waiting unknown_remains
      blocked

abbrev retryable : Db
retryable = world "RUNNING" "RUNNING" "RECONCILED_RETRYABLE" (some "SAFE_TO_RETRY")

retried : (retry_attempt scrub "a" "b" alice 110 carol retryable).0 ≡ ok tt
unfolding program
retried = refl

abbrev retry : Attempt
retry = record {
  attempt_id = "b";
  project_job_id = "j";
  ordinal = 2;
  state = "PENDING";
  result_claim = none;
  reconciliation_outcome = none;
  created_at = 110;
  updated_at = 110;
}

retry_guarded_example :
    ((attempt_in "RECONCILED_RETRYABLE" (some "SAFE_TO_RETRY")).state ≡ "RECONCILED_RETRYABLE")
    × ((attempt_in "RECONCILED_RETRYABLE" (some "SAFE_TO_RETRY")).reconciliation_outcome
        ≡ some "SAFE_TO_RETRY")
    × (lookup "b" retryable.attempts ≡ none)
    × ((retry_attempt scrub "a" "b" alice 110 carol retryable).1.attempts
        ≡ put "b" retry retryable.attempts)
    × (count (
          attempts_in
            (retry_attempt scrub "a" "b" alice 110 carol retryable).1.project_jobs
            "r"
            "j"
            (retry_attempt scrub "a" "b" alice 110 carol retryable).1.attempts)
        ≤ row.payload.max_attempts)
unfolding program
retry_guarded_example = Outcomes.retry_guarded scrub "a" "b" alice 110 carol retryable retried

abbrev over : Db
over = world "RUNNING" "ACCEPTED" "FINISHED" none

settled : (settle_run_for_job scrub "j" alice 110 carol over).0 ≡ ok tt
unfolding program
settled = refl

settle_completes_example :
    ((settle_run_for_job scrub "j" alice 110 carol over).1 ≡ over)
    ⊎ (((run_in "RUNNING").state ≡ "RUNNING")
        × ((k : String) (j : ProjectJob)
            → lookup k over.project_jobs ≡ some j
            → j.run_id ≡ "r"
            → is_terminal j.state ≡ true)
        × ((settle_run_for_job scrub "j" alice 110 carol over).1.runs
            ≡ put "r"
                (record (run_in "RUNNING") { state = "COMPLETED"; updated_at = 110 })
                over.runs))
unfolding program
settle_completes_example = Settling.settle_completes scrub "j" alice 110 carol over settled
