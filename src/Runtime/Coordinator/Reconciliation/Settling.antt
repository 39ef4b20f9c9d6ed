-- ===== src/Runtime/Coordinator/Reconciliation/Settling.antt =====
-- When a run is completed.
use artifex_dev.Prelude.{
  ℕ, String, Bool, if◌then◌else◌, ◌≡◌, refl, inl, inr, Bool-cases, not, ◌||◌, Option-cases, ◌⊎◌,
  true, false, some, List, [], ◌∷◌, ok, arith, lookup, str_eq, eq_iff, ◌>>=◌, Dict, put,
}
use artifex_dev.Runtime.Actor.{ActorLike}
use artifex_dev.Runtime.Store.Tables.{
  FenceToken, Db, ProjectJob, Run, transaction, assert_fence, audit,
}
use artifex_dev.Runtime.Store.Transitions.{
  transition_batch, apply_changes, apply_change, update_row, target_of,
}
use artifex_dev.Runtime.Coordinator.Attempts.{move_run, move_workstream}
use artifex_dev.Runtime.Coordinator.Base.{Found, stored}
use artifex_dev.Runtime.Coordinator.Reconciliation.{
  jobs_of, all_terminal, is_terminal, settle, settle_run_for_job, is_unsettled,
}

terminal_each :
    (run_id : String) (d : Dict ProjectJob) (k : String) (j : ProjectJob)
    → all_terminal (jobs_of run_id d) ≡ true
    → lookup k d ≡ some j
    → j.run_id ≡ run_id
    → is_terminal j.state ≡ true
unfolding all_terminal jobs_of lookup
terminal_each run_id [] k j h there own = absurd (ground arith)
terminal_each run_id ((i, b) ∷ d) k j h there own =
    ground (arith, eq_iff i k, eq_iff b.run_id run_id, terminal_each run_id d k j)

is_unsettled-all : (js : List ProjectJob) → is_unsettled js ≡ false → all_terminal js ≡ true
is_unsettled-all [] h = absurd (ground arith)
is_unsettled-all (j ∷ js) h = ground arith

module _ (scrub_secrets : String → String) where
  settle-stays :
      (run : Run) (run_id : String) (token : FenceToken) (now : ℕ) (actor : ActorLike) (db : Db)
      → (settle scrub_secrets true run run_id token now actor db).1 ≡ db
  unfolding settle
  settle-stays run run_id token now actor db = refl

  -- A batch that completes a run, and a workstream or nothing besides.
  batch_completes :
      (run : Run) (run_id id : String) (b : Bool) (token : FenceToken) (now : ℕ) (actor : ActorLike)
      (db : Db)
      → lookup run_id db.runs ≡ some run
      → (let cs =
            move_run run_id "RUNNING" "COMPLETED"
            ∷ (if b then move_workstream id "ACTIVE" "COMPLETE" ∷ [] else []) in
          (stored (transition_batch scrub_secrets cs token now actor) db).0 ≡ ok tt
          → (stored (transition_batch scrub_secrets cs token now actor) db).1.runs
            ≡ put run_id (record run { state = "COMPLETED"; updated_at = now }) db.runs)
  unfolding stored transition_batch transaction assert_fence apply_changes apply_change update_row
      target_of audit ◌>>=◌
  batch_completes run run_id id true token now actor db there h = ground arith
  batch_completes run run_id id false token now actor db there h = ground arith

  settle-runs :
      (run : Run) (run_id : String) (token : FenceToken) (now : ℕ) (actor : ActorLike) (db : Db)
      → lookup run_id db.runs ≡ some run
      → (settle scrub_secrets false run run_id token now actor db).0 ≡ ok tt
      → (settle scrub_secrets false run run_id token now actor db).1.runs
        ≡ put run_id (record run { state = "COMPLETED"; updated_at = now }) db.runs
  unfolding settle ◌>>=◌
  settle-runs run run_id token now actor db there h =
      elim (Option-cases (lookup run.workstream_id db.workstreams)) [
        | inl missing ↦ absurd (ground arith)
        | inr (w, found) ↦ ground (
          arith,
          batch_completes run run_id run.workstream_id (str_eq w.state "ACTIVE") token now actor db,
        )
      ]

  -- When `settle_run_for_job` returns, it changed nothing, or the run was RUNNING, every job of the
  -- run was in a terminal state, and the run is now COMPLETED.
  pub settle_completes :
      (job_id : String) (token : FenceToken) (now : ℕ) (actor : ActorLike) (db : Db)
      → (settle_run_for_job scrub_secrets job_id token now actor db).0 ≡ ok tt
      → Found (lookup job_id db.project_jobs) λ job. Found (lookup job.run_id db.runs) λ run.
        ((settle_run_for_job scrub_secrets job_id token now actor db).1 ≡ db)
        ⊎ ((run.state ≡ "RUNNING")
            × ((k : String) (j : ProjectJob)
                → lookup k db.project_jobs ≡ some j
                → j.run_id ≡ job.run_id
                → is_terminal j.state ≡ true)
            × ((settle_run_for_job scrub_secrets job_id token now actor db).1.runs
                ≡ put job.run_id (record run { state = "COMPLETED"; updated_at = now }) db.runs))
  unfolding settle_run_for_job ◌>>=◌
  settle_completes job_id token now actor db h =
      elim (Option-cases (lookup job_id db.project_jobs)) [
        | inl e ↦ absurd (ground arith)
        | inr (job, e) ↦ elim (Option-cases (lookup job.run_id db.runs)) [
          | inl f ↦ absurd (ground arith)
          | inr (run, f) ↦ rw e (
              rw f
                (elim (Bool-cases (
                  not (str_eq run.state "RUNNING")
                  || is_unsettled (jobs_of job.run_id db.project_jobs))) [
                    | inl stays ↦ inl (rw stays (settle-stays run job.run_id token now actor db))
                    | inr goes ↦ inr (
                      ground (arith, eq_iff run.state "RUNNING"),
                      (λ k j there own.
                          terminal_each job.run_id db.project_jobs k j
                            (is_unsettled-all _ (ground arith)) there own),
                      rw goes (settle-runs run job.run_id token now actor db f (ground arith)),
                    )
                  ]))
        ]
      ]
