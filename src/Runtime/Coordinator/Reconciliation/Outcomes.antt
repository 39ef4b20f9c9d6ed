-- ===== src/Runtime/Coordinator/Reconciliation/Outcomes.antt =====
-- What a reconciliation and a retry require.
use artifex_dev.Prelude.{
  ℕ, ◌≤◌, Option-cases, inl, inr, ◌+◌, put, none, String, ◌≡◌, ◌≢◌, Option, some, ok, raise, arith,
  lookup, eq_iff, ◌>>=◌,
}
use artifex_dev.Runtime.Actor.{ActorLike}
use artifex_dev.Runtime.Store.Tables.{Attempt, FenceToken, Db, transaction, assert_fence, audit}
use artifex_dev.Runtime.Store.Transitions.{
  transition_batch, apply_changes, apply_change, update_row, target_of,
}
use artifex_dev.Runtime.Store.Lease.{find_envelope}
use artifex_dev.Runtime.Coordinator.Base.{Found, stored, CoordinatorError}
use artifex_dev.Runtime.Coordinator.Creation.{attempts_in, count, create_attempt}
use artifex_dev.Runtime.Coordinator.Creation.Limit.{create_attempt-writes, attempts_bounded}
use artifex_dev.Runtime.Coordinator.Reconciliation.{
  ReconciliationOutcome, still_unknown, reconcile_attempt, retry_attempt,
}

module _ (scrub_secrets : String → String) where
  retry-creates :
      (old new : String) (token : FenceToken) (now : ℕ) (actor : ActorLike) (db : Db) (a : Attempt)
      → lookup old db.attempts ≡ some a
      → (retry_attempt scrub_secrets old new token now actor db).0 ≡ ok tt
      → (a.state ≡ "RECONCILED_RETRYABLE")
        × (a.reconciliation_outcome ≡ some "SAFE_TO_RETRY")
        × (retry_attempt scrub_secrets old new token now actor db
            ≡ create_attempt scrub_secrets new a.project_job_id token now actor db)
  unfolding retry_attempt ◌>>=◌
  retry-creates old new token now actor db a there h = grind (arith, eq_iff)

  -- A retry that returns had a previous attempt that was reconciled as safe to retry, and writes one
  -- new row: a PENDING attempt of the same job, under an identifier that no attempt had, whose
  -- ordinal is one more than the number of the job's attempts. With it the job has at most the
  -- `max_attempts` attempts of its run's envelope.
  pub retry_guarded :
      (old new : String) (token : FenceToken) (now : ℕ) (actor : ActorLike) (db : Db)
      → (retry_attempt scrub_secrets old new token now actor db).0 ≡ ok tt
      → Found (lookup old db.attempts) λ a.
        (a.state ≡ "RECONCILED_RETRYABLE")
        × (a.reconciliation_outcome ≡ some "SAFE_TO_RETRY")
        × (lookup new db.attempts ≡ none)
        × (Found (lookup a.project_job_id db.project_jobs) λ job.
            (retry_attempt scrub_secrets old new token now actor db).1.attempts
            ≡ put new
                (record {
                  attempt_id = new;
                  project_job_id = a.project_job_id;
                  ordinal =
                      count (attempts_in db.project_jobs job.run_id a.project_job_id db.attempts)
                      + 1;
                  state = "PENDING";
                  result_claim = none;
                  reconciliation_outcome = none;
                  created_at = now;
                  updated_at = now;
                })
                db.attempts)
        × Found (lookup a.project_job_id db.project_jobs) λ job.
          Found (lookup job.run_id db.runs) λ run.
            Found (find_envelope run.envelope_id run.envelope_version db.envelopes) λ row.
              count (
                attempts_in
                  (retry_attempt scrub_secrets old new token now actor db).1.project_jobs
                  job.run_id
                  a.project_job_id
                  (retry_attempt scrub_secrets old new token now actor db).1.attempts)
              ≤ row.payload.max_attempts
  retry_guarded old new token now actor db h = elim (Option-cases (lookup old db.attempts)) [
    | inl missing ↦ absurd (unfold retry_attempt ◌>>=◌ in ground arith)
    | inr (a, there) ↦
        let (retryable, safe, same) = retry-creates old new token now actor db a there h in
        let (fresh, writes) =
          create_attempt-writes scrub_secrets new a.project_job_id token now actor db
            (rw same at h) in
        let bounded =
          attempts_bounded scrub_secrets new a.project_job_id token now actor db (rw same at h) in
        rw there (retryable, safe, fresh, rw same writes, rw same bounded)
  ]

  -- A reconciliation that raises changes nothing.
  pub reconcile_atomic :
      (id : String) (o : ReconciliationOutcome) (token : FenceToken) (now : ℕ) (actor : ActorLike)
      (claim : Option String) (db : Db) (x : CoordinatorError)
      → (reconcile_attempt scrub_secrets id o token now actor claim db).0 ≡ raise x
      → (reconcile_attempt scrub_secrets id o token now actor claim db).1 ≡ db
  unfolding reconcile_attempt ◌>>=◌ stored transition_batch transaction
  reconcile_atomic id o token now actor claim db x h = ground arith

  -- When a reconciliation returns, its outcome is not STILL_UNKNOWN, and the attempt was
  -- NEEDS_RECONCILIATION, its job UNKNOWN and its run WAITING_RECONCILIATION.
  pub reconcile_guarded :
      (id : String) (o : ReconciliationOutcome) (token : FenceToken) (now : ℕ) (actor : ActorLike)
      (claim : Option String) (db : Db)
      → (reconcile_attempt scrub_secrets id o token now actor claim db).0 ≡ ok tt
      → (o ≢ still_unknown)
        × Found (lookup id db.attempts) λ a.
          (a.state ≡ "NEEDS_RECONCILIATION")
          × Found (lookup a.project_job_id db.project_jobs) λ j.
            (j.state ≡ "UNKNOWN")
            × Found (lookup j.run_id db.runs) λ r. r.state ≡ "WAITING_RECONCILIATION"
  unfolding reconcile_attempt stored transition_batch transaction assert_fence apply_changes
      apply_change update_row target_of audit ◌>>=◌
  reconcile_guarded id o token now actor claim db h = grind (arith, eq_iff)
