-- ===== src/Runtime/Coordinator/Attempts/Guards.antt =====
-- What an attempt's methods require, and what they leave.
use artifex_dev.Prelude.{
  ℕ, String, ◌≡◌, refl, inl, inr, Result-cases, Option-cases, false, Option, none, some, [], ◌∷◌,
  ok, arith, lookup, str_eq, eq_iff, ◌>>=◌, put,
}
use artifex_dev.Runtime.Actor.{ActorLike}
use artifex_dev.Runtime.Store.Tables.{
  FenceToken, Db, Attempt, ProjectJob, Run, Workstream, DispatchAuthorization, transaction,
  assert_fence, audit,
}
use artifex_dev.Runtime.Store.Transitions.{
  Change, transition, Updates, no_updates, or_else, transition_batch, apply_changes, apply_change,
  update_row, target_of,
}
use artifex_dev.Runtime.Json.{Fields, field, text, done}
use artifex_dev.Runtime.Store.Lease.{find_envelope}
use artifex_dev.Runtime.Store.Records.{dispatch_authorization, record_event}
use artifex_dev.Runtime.Coordinator.Base.{Found, stored}
use artifex_dev.Runtime.Coordinator.Attempts.{
  move_attempt, move_job, start_attempt, is_undispatched, move_from, start_moves, move_run,
  move_workstream, finish_attempt, record_result, end_attempt, finish_changes, finish_changes,
}

-- The row that a transition of an attempt leaves.
abbrev pub moved : String → ℕ → Updates → Attempt → Attempt
moved state now u a = record a {
  state = state;
  updated_at = now;
  result_claim = or_else u.result_claim a.result_claim;
  reconciliation_outcome = or_else u.reconciliation_outcome a.reconciliation_outcome;
}

module _ (scrub_secrets : String → String) where
  other_keeps :
      (state : String) (c : Change) (token : FenceToken) (now : ℕ) (actor : ActorLike) (db : Db)
      → str_eq c.table "attempts" ≡ false
      → (move_from scrub_secrets state c token now actor db).1.attempts ≡ db.attempts
  unfolding move_from stored transition_batch transaction assert_fence apply_changes apply_change
      update_row target_of audit ◌>>=◌
  other_keeps state c token now actor db other = ground arith

  move_one :
      (id from to : String) (u : Updates) (token : FenceToken) (now : ℕ) (actor : ActorLike)
      (db : Db)
      → (stored (transition scrub_secrets (move_attempt id from to u) token now actor) db).0 ≡ ok tt
      → Found (lookup id db.attempts) λ a.
        (a.state ≡ from)
        × ((stored
              (transition scrub_secrets (move_attempt id from to u) token now actor)
              db).1.attempts
            ≡ put id (moved to now u a) db.attempts)
  unfolding stored transition_batch transaction assert_fence apply_changes apply_change update_row
      target_of audit ◌>>=◌
  move_one id from to u token now actor db h = grind (arith, eq_iff)

  start_moves-attempt :
      (id : String) (a : Attempt) (j : ProjectJob) (r : Run) (w : Workstream) (token : FenceToken)
      (now : ℕ) (actor : ActorLike) (db : Db)
      → (start_moves scrub_secrets id a j r w token now actor db).0 ≡ ok tt
      → Found (lookup id db.attempts) λ a'.
        (a'.state ≡ "PENDING")
        × ((start_moves scrub_secrets id a j r w token now actor db).1.attempts
            ≡ put id (moved "RUNNING" now no_updates a') db.attempts)
  unfolding start_moves ◌>>=◌
  start_moves-attempt id a j r w token now actor db h =
      let c1 = move_workstream r.workstream_id "READY" "ACTIVE" in
      let c2 = move_run j.run_id "PENDING" "RUNNING" in
      let c3 = move_job a.project_job_id "PENDING" "RUNNING" in
      let s1 = (move_from scrub_secrets w.state c1 token now actor db).1 in
      let s2 = (move_from scrub_secrets r.state c2 token now actor s1).1 in
      let s3 = (move_from scrub_secrets j.state c3 token now actor s2).1 in
      let k1 = other_keeps w.state c1 token now actor db refl in
      let k2 = other_keeps r.state c2 token now actor s1 refl in
      let k3 = other_keeps j.state c3 token now actor s2 refl in
      let m = move_one id "PENDING" "RUNNING" no_updates token now actor s3 (ground arith) in
      ground arith

  -- When `start_attempt` returns, the attempt was PENDING and is RUNNING, and if the envelope of its
  -- run names providers, a dispatch of the attempt was authorized.
  pub start_guarded :
      (id : String) (token : FenceToken) (now : ℕ) (actor : ActorLike) (db : Db)
      → (start_attempt scrub_secrets id token now actor db).0 ≡ ok tt
      → Found (lookup id db.attempts) λ a.
        (a.state ≡ "PENDING")
        × ((start_attempt scrub_secrets id token now actor db).1.attempts
            ≡ put id (moved "RUNNING" now no_updates a) db.attempts)
        × Found (lookup a.project_job_id db.project_jobs) λ j. Found (lookup j.run_id db.runs) λ r.
          Found (find_envelope r.envelope_id r.envelope_version db.envelopes) λ row.
            is_undispatched row.payload.allowed_providers (dispatch_authorization id db) ≡ false
  unfolding start_attempt ◌>>=◌
  start_guarded id token now actor db h = elim (Option-cases (lookup id db.attempts)) [
    | inl e ↦ absurd (ground arith)
    | inr (a, e) ↦ elim (Option-cases (lookup a.project_job_id db.project_jobs)) [
      | inl f ↦ absurd (ground arith)
      | inr (j, f) ↦ elim (Option-cases (lookup j.run_id db.runs)) [
        | inl g ↦ absurd (ground arith)
        | inr (r, g) ↦ elim (Option-cases (lookup r.workstream_id db.workstreams)) [
          | inl k ↦ absurd (ground arith)
          | inr (w, k) ↦
              let moves = start_moves-attempt id a j r w token now actor db (ground arith) in
              ground arith
        ]
      ]
    ]
  ]

  move_two :
      (id job_id : String) (from to job_from job_to : String) (u : Updates) (token : FenceToken)
      (now : ℕ) (actor : ActorLike) (db : Db)
      → (transition_batch scrub_secrets
          (move_attempt id from to u ∷ move_job job_id job_from job_to ∷ [])
          token
          now
          actor
          db).0
        ≡ ok tt
      → (Found (lookup id db.attempts) λ a.
          (a.state ≡ from)
          × ((transition_batch scrub_secrets
                (move_attempt id from to u ∷ move_job job_id job_from job_to ∷ [])
                token
                now
                actor
                db).1.attempts
              ≡ put id (moved to now u a) db.attempts))
        × (Found (lookup job_id db.project_jobs) λ j.
            (j.state ≡ job_from)
            × ((transition_batch scrub_secrets
                  (move_attempt id from to u ∷ move_job job_id job_from job_to ∷ [])
                  token
                  now
                  actor
                  db).1.project_jobs
                ≡ put job_id (record j { state = job_to; updated_at = now }) db.project_jobs))
  unfolding transition_batch transaction assert_fence apply_changes apply_change update_row
      target_of audit ◌>>=◌
  move_two id job_id from to job_from job_to u token now actor db h = grind (arith, eq_iff)

  event_keeps :
      (event kind id : String) (payload : Fields) (token : FenceToken) (now : ℕ) (actor : ActorLike)
      (correlation : Option String) (db : Db)
      → ((record_event scrub_secrets event kind id payload token now actor correlation
            db).1.attempts
          ≡ db.attempts)
        × ((record_event scrub_secrets event kind id payload token now actor correlation
              db).1.project_jobs
            ≡ db.project_jobs)
  unfolding record_event transaction assert_fence audit ◌>>=◌
  event_keeps event kind id payload token now actor correlation db = ground arith

  result_keeps :
      (o : Option DispatchAuthorization) (id : String) (a : Attempt) (claim : String)
      (token : FenceToken) (now : ℕ) (actor : ActorLike) (correlation : Option String) (db : Db)
      → ((record_result scrub_secrets o id a claim token now actor correlation db).1.attempts
          ≡ db.attempts)
        × ((record_result scrub_secrets o id a claim token now actor correlation db).1.project_jobs
            ≡ db.project_jobs)
  unfolding record_result stored ◌>>=◌
  result_keeps none id a claim token now actor correlation db = (refl, refl)
  result_keeps (some d) id a claim token now actor correlation db = grind (arith, event_keeps)

  end_attempt-moves :
      (id job_id claim : String) (token : FenceToken) (now : ℕ) (actor : ActorLike)
      (correlation : Option String) (db : Db)
      → (end_attempt scrub_secrets id job_id claim token now actor correlation db).0 ≡ ok tt
      → (Found (lookup id db.attempts) λ a.
          (a.state ≡ "RUNNING")
          × ((end_attempt scrub_secrets id job_id claim token now actor correlation db).1.attempts
              ≡ put id
                  (moved "FINISHED" now
                    (record { result_claim = some claim; reconciliation_outcome = none })
                    a)
                  db.attempts))
        × (Found (lookup job_id db.project_jobs) λ j.
            (j.state ≡ "RUNNING")
            × ((end_attempt scrub_secrets id job_id claim token now actor correlation
                  db).1.project_jobs
                ≡ put job_id (record j { state = "FINISHED"; updated_at = now }) db.project_jobs))
  unfolding end_attempt stored ◌>>=◌
  end_attempt-moves id job_id claim token now actor correlation db h =
      let changes = finish_changes scrub_secrets id job_id claim in
      let after = (transition_batch scrub_secrets changes token now actor db).1 in
      elim (Result-cases (transition_batch scrub_secrets changes token now actor db).0) [
        | inl (_, moved_both) ↦
            let moves =
              move_two id job_id "RUNNING" "FINISHED" "RUNNING" "FINISHED"
                (record { result_claim = some claim; reconciliation_outcome = none }) token now
                actor db moved_both in
            let keeps =
              event_keeps "ATTEMPT_FINISHED" "attempts" id
                (field "project_job_id" (text job_id) (field "result_claim" (text claim) done))
                token now actor correlation after in
            ground arith
        | inr (x, raised) ↦ absurd (ground arith)
      ]

  -- When `finish_attempt` returns, the attempt and its job were RUNNING, and they are FINISHED with
  -- the scrubbed claim; no other attempt or job is changed.
  pub finish_scrubbed :
      (id claim : String) (token : FenceToken) (now : ℕ) (actor : ActorLike)
      (correlation : Option String) (db : Db)
      → (finish_attempt scrub_secrets id claim token now actor correlation db).0 ≡ ok tt
      → Found (lookup id db.attempts) λ a.
        (a.state ≡ "RUNNING")
        × ((finish_attempt scrub_secrets id claim token now actor correlation db).1.attempts
            ≡ put id
                (moved "FINISHED" now
                  (record {
                    result_claim = some (scrub_secrets claim);
                    reconciliation_outcome = none;
                  })
                  a)
                db.attempts)
        × Found (lookup a.project_job_id db.project_jobs) λ j.
          (j.state ≡ "RUNNING")
          × ((finish_attempt scrub_secrets id claim token now actor correlation db).1.project_jobs
              ≡ put a.project_job_id
                  (record j { state = "FINISHED"; updated_at = now })
                  db.project_jobs)
  unfolding finish_attempt stored ◌>>=◌
  finish_scrubbed id claim token now actor correlation db h =
      elim (Option-cases (lookup id db.attempts)) [
        | inl missing ↦ absurd (ground arith)
        | inr (a, there) ↦
            let dispatch = dispatch_authorization id db in
            let result =
              record_result scrub_secrets dispatch id a (scrub_secrets claim) token now actor
                correlation db in
            let keeps =
              result_keeps dispatch id a (scrub_secrets claim) token now actor correlation db in
            elim (Result-cases result.0) [
              | inl (_, recorded) ↦
                  let moves =
                    end_attempt-moves id a.project_job_id (scrub_secrets claim) token now actor
                      correlation result.1 (ground arith) in
                  ground arith
              | inr (x, raised) ↦ absurd (ground arith)
            ]
      ]
