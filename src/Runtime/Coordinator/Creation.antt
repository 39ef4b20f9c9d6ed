-- ===== src/Runtime/Coordinator/Creation.antt =====
-- The methods of src/artifex/runtime/coordinator.py that approve envelopes and add workstreams,
-- runs, jobs and attempts.
pub mod Limit
use artifex_dev.Prelude.{
  ℕ, suc, ◌+◌, ltb, ◌==◌, String, Bool, true, false, not, ◌&&◌, ◌||◌, Option, none, some, List, [],
  ◌∷◌, if◌then◌else◌, Result, ok, raise, pure, fail, gets, require, raise_if, lift, ◌>>=◌, ◌>>◌,
  Dict, lookup, str_eq, is_blank, is_empty, contains,
}
use artifex_dev.Runtime.Actor.{ActorLike, named}
use artifex_dev.Runtime.Envelope.{ExecutionEnvelope}
use artifex_dev.Runtime.Store.Tables.{
  FenceToken, Db, EnvelopeRow, Workstream, Run, ProjectJob, Attempt,
}
use artifex_dev.Runtime.Store.Lease.{find_envelope, put_envelope}
use artifex_dev.Runtime.Store.Transitions.{insert, workstream_row, run_row, job_row, attempt_row}
use artifex_dev.Runtime.Coordinator.Base.{
  CoordinatorError, forbidden_actor_type, run_without_envelope, envelope_project_mismatch,
  workstream_out_of_scope, deadline_expired, workstream_project_mismatch, purpose_missing,
  envelope_missing, attempt_limit, Method, stored, require_workstream, require_run, require_job,
  require_envelope, is_expired, is_forbidden,
}

-- `approval_actor`
abbrev approval_actor : ExecutionEnvelope → Option ActorLike → ActorLike
approval_actor e none = named e.actor_id
approval_actor e (some actor) = actor

-- The checks of `create_run` on the envelope; `seen` is the clock at the deadline check.
unfoldable pub check_run :
    Option EnvelopeRow → String → String → ℕ → Result CoordinatorError (Unit {0})
unfolding is_empty
check_run none workstream_id project_id seen = raise run_without_envelope
check_run (some row) workstream_id project_id seen =
    let e = row.payload in
    if not e.approved
    then raise run_without_envelope
    else if not (str_eq e.project_id project_id)
    then raise envelope_project_mismatch
    else if not (is_empty e.allowed_workstreams)
        && not (contains workstream_id e.allowed_workstreams)
    then raise workstream_out_of_scope
    else if is_expired e.deadline_at seen
    then raise deadline_expired
    else ok tt

-- The attempts of `snapshot_run` that belong to the job: the snapshot joins them with the jobs of
-- the run.
abbrev is_in_run : String → Option ProjectJob → Bool
is_in_run run_id none = false
is_in_run run_id (some j) = str_eq j.run_id run_id

unfoldable pub attempts_in : Dict ProjectJob → String → String → Dict Attempt → List Attempt
attempts_in jobs run_id job_id [] = []
attempts_in jobs run_id job_id ((k, a) ∷ rest) =
    let others = attempts_in jobs run_id job_id rest in
    if is_in_run run_id (lookup a.project_job_id jobs) && str_eq a.project_job_id job_id
    then a ∷ others
    else others

unfoldable pub count : List Attempt → ℕ
count [] = 0
count (a ∷ rest) = suc (count rest)

module _ (scrub_secrets : String → String) where
  unfoldable pub approve_envelope :
      (ExecutionEnvelope → String)
      → ExecutionEnvelope
      → FenceToken
      → ℕ
      → Option ActorLike
      → Option String
      → Method (Unit {0})
  approve_envelope fingerprint e token now actor correlation_id = do
    raise_if forbidden_actor_type (is_forbidden (approval_actor e actor))
    stored (
        put_envelope scrub_secrets fingerprint e token now (some (approval_actor e actor))
          correlation_id)

  unfoldable pub create_workstream :
      String → String → FenceToken → ℕ → ActorLike → Method (Unit {0})
  create_workstream workstream_id project_id token now actor_id = stored (
      insert scrub_secrets
        (workstream_row (record {
          workstream_id = workstream_id;
          project_id = project_id;
          state = "READY";
          created_at = now;
          updated_at = now;
        }))
        token now actor_id "WORKSTREAM_CREATED")

  unfoldable pub create_run :
      String → String → String → String → ℕ → FenceToken → ℕ → ℕ → ActorLike → Method (Unit {0})
  create_run run_id workstream_id project_id envelope_id envelope_version token seen now actor_id =
      do
        envelope ← gets (λ db. find_envelope envelope_id envelope_version db.envelopes)
        lift (check_run envelope workstream_id project_id seen)
        workstream ← require_workstream workstream_id
        raise_if workstream_project_mismatch (not (str_eq workstream.project_id project_id))
        stored (
            insert scrub_secrets
              (run_row (record {
                run_id = run_id;
                workstream_id = workstream_id;
                project_id = project_id;
                envelope_id = envelope_id;
                envelope_version = envelope_version;
                state = "PENDING";
                created_at = now;
                updated_at = now;
              }))
              token now actor_id "RUN_CREATED")

  unfoldable pub create_project_job :
      String → String → String → FenceToken → ℕ → ActorLike → Method (Unit {0})
  create_project_job project_job_id run_id purpose token now actor_id = do
    raise_if purpose_missing (is_blank purpose)
    require_run run_id
    stored (
        insert scrub_secrets
          (job_row (record {
            project_job_id = project_job_id;
            run_id = run_id;
            state = "PENDING";
            purpose = purpose;
            created_at = now;
            updated_at = now;
          }))
          token now actor_id "PROJECT_JOB_CREATED")

  abbrev pub new_attempt : String → String → ℕ → ℕ → Attempt
  new_attempt attempt_id project_job_id ordinal now = record {
    attempt_id = attempt_id;
    project_job_id = project_job_id;
    ordinal = ordinal;
    state = "PENDING";
    result_claim = none;
    reconciliation_outcome = none;
    created_at = now;
    updated_at = now;
  }

  unfoldable pub create_attempt : String → String → FenceToken → ℕ → ActorLike → Method (Unit {0})
  create_attempt attempt_id project_job_id token now actor_id = do
    job ← require_job project_job_id
    run ← require_run job.run_id
    existing ←
        gets (λ db. count (attempts_in db.project_jobs job.run_id project_job_id db.attempts))
    envelope ← require_envelope envelope_missing run
    raise_if attempt_limit (ltb envelope.payload.max_attempts (existing + 1))
    stored (
        insert scrub_secrets
          (attempt_row (new_attempt attempt_id project_job_id (existing + 1) now)) token now
          actor_id "ATTEMPT_CREATED")
