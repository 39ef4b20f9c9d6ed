-- ===== src/Runtime/Coordinator/Creation/Limit.antt =====
-- The envelope's limit on the attempts of a job.
use artifex_dev.Prelude.{
  ℕ, ◌+◌, ◌≤◌, String, ◌≡◌, [], ◌∷◌, ok, none, arith, lookup, put, ◌>>=◌, Dict,
}
use artifex_dev.Runtime.Actor.{ActorLike}
use artifex_dev.Runtime.Store.Tables.{
  FenceToken, Db, Attempt, ProjectJob, transaction, assert_fence, audit,
}
use artifex_dev.Runtime.Store.Lease.{find_envelope}
use artifex_dev.Runtime.Store.Transitions.{insert, attempt_row, add_row, violates}
use artifex_dev.Runtime.Coordinator.Base.{Found, stored}
use artifex_dev.Runtime.Coordinator.Creation.{attempts_in, count, create_attempt, new_attempt}

attempts_in-put :
    (jobs : Dict ProjectJob) (run_id job_id id : String) (a : Attempt) (d : Dict Attempt)
    → count (attempts_in jobs run_id job_id (put id a d))
      ≤ count (attempts_in jobs run_id job_id d) + 1
unfolding attempts_in put count
attempts_in-put jobs run_id job_id id a [] = ground arith
attempts_in-put jobs run_id job_id id a ((k, b) ∷ d) =
    ground (arith, attempts_in-put jobs run_id job_id id a d)

module _ (scrub_secrets : String → String) where
  insert_attempt :
      (a : Attempt) (token : FenceToken) (now : ℕ) (actor : ActorLike) (event : String) (db : Db)
      → (insert scrub_secrets (attempt_row a) token now actor event db).0 ≡ ok tt
      → ((insert scrub_secrets (attempt_row a) token now actor event db).1.project_jobs
          ≡ db.project_jobs)
        × ((insert scrub_secrets (attempt_row a) token now actor event db).1.attempts
            ≡ put a.attempt_id a db.attempts)
        × (lookup a.attempt_id db.attempts ≡ none)
  unfolding insert transaction assert_fence audit add_row violates ◌>>=◌
  insert_attempt a token now actor event db h = ground arith

  -- What `create_attempt` writes: one new row, which was not there.
  pub create_attempt-writes :
      (id job_id : String) (token : FenceToken) (now : ℕ) (actor : ActorLike) (db : Db)
      → (create_attempt scrub_secrets id job_id token now actor db).0 ≡ ok tt
      → (lookup id db.attempts ≡ none)
        × Found (lookup job_id db.project_jobs) λ job.
          (create_attempt scrub_secrets id job_id token now actor db).1.attempts
          ≡ put id
              (new_attempt scrub_secrets id job_id
                (count (attempts_in db.project_jobs job.run_id job_id db.attempts) + 1)
                now)
              db.attempts
  unfolding create_attempt stored ◌>>=◌
  create_attempt-writes id job_id token now actor db h = grind (arith, insert_attempt)

  -- When `create_attempt` returns, the job, its run and the run's envelope are there, and the job
  -- has at most `max_attempts` attempts, the new one counted.
  pub attempts_bounded :
      (id job_id : String) (token : FenceToken) (now : ℕ) (actor : ActorLike) (db : Db)
      → (create_attempt scrub_secrets id job_id token now actor db).0 ≡ ok tt
      → Found (lookup job_id db.project_jobs) λ job. Found (lookup job.run_id db.runs) λ run.
        Found (find_envelope run.envelope_id run.envelope_version db.envelopes) λ row.
          count (
            attempts_in
              (create_attempt scrub_secrets id job_id token now actor db).1.project_jobs
              job.run_id
              job_id
              (create_attempt scrub_secrets id job_id token now actor db).1.attempts)
          ≤ row.payload.max_attempts
  unfolding create_attempt stored ◌>>=◌
  attempts_bounded id job_id token now actor db h = grind (arith, insert_attempt, attempts_in-put)
