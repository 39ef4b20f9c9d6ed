-- ===== src/Runtime/Scenarios/Starts.antt =====
-- Runs of the start and the finish of an attempt, and its theorems at concrete inputs.
use artifex_dev.Prelude.{◌≡◌, refl, false, none, some, [], ◌∷◌, ok, raise, put}
use artifex_dev.Runtime.Examples.{envelope}
use artifex_dev.Runtime.Store.Tables.{Db, lost_race}
use artifex_dev.Runtime.Store.Transitions.{no_updates}
use artifex_dev.Runtime.Coordinator.Base.{not_dispatched, from_store}
use artifex_dev.Runtime.Coordinator.Dispatch.{authorization}
use artifex_dev.Runtime.Coordinator.Attempts.{finish_attempt, start_attempt}
use artifex_dev.Runtime.Coordinator.Attempts.Guards
use artifex_dev.Runtime.Coordinator.Attempts.Guards.{moved}
use artifex_dev.Runtime.Scenarios.{
  program, scrub, alice, row, job_in, attempt_in, world, bot, carol, request, pending,
}

abbrev running : Db
running = world "RUNNING" "RUNNING" "RUNNING" none

finished : (finish_attempt scrub "a" "done" alice 110 carol none running).0 ≡ ok tt
unfolding program
finished = refl

finish_scrubbed_example :
    ((attempt_in "RUNNING" none).state ≡ "RUNNING")
    × ((finish_attempt scrub "a" "done" alice 110 carol none running).1.attempts
        ≡ put "a"
            (moved "FINISHED" 110
              (record { result_claim = some "done"; reconciliation_outcome = none })
              (attempt_in "RUNNING" none))
            running.attempts)
    × (((job_in "RUNNING").state ≡ "RUNNING")
        × ((finish_attempt scrub "a" "done" alice 110 carol none running).1.project_jobs
            ≡ put "j"
                (record (job_in "RUNNING") { state = "FINISHED"; updated_at = 110 })
                running.project_jobs))
unfolding program
finish_scrubbed_example =
    Guards.finish_scrubbed scrub "a" "done" alice 110 carol none running finished

abbrev dispatched : Db
dispatched = record pending { dispatches = ("d", authorization "d" "a" request row bot 105) ∷ [] }

started : (start_attempt scrub "a" alice 110 carol dispatched).0 ≡ ok tt
unfolding program
started = refl

undispatched : (start_attempt scrub "a" alice 110 carol pending).0 ≡ raise not_dispatched
unfolding program
undispatched = refl

start_guarded_example :
    ((attempt_in "PENDING" none).state ≡ "PENDING")
    × ((start_attempt scrub "a" alice 110 carol dispatched).1.attempts
        ≡ put "a" (moved "RUNNING" 110 no_updates (attempt_in "PENDING" none)) dispatched.attempts)
    × (false ≡ false)
unfolding program
start_guarded_example = Guards.start_guarded scrub "a" alice 110 carol dispatched started

-- An attempt that is not PENDING cannot be started, yet its workstream is ACTIVE afterwards: the
-- transitions before the one that raises stay.
abbrev idle : Db
idle = record (world "RUNNING" "RUNNING" "CANCELLED" none) {
  envelopes = record row { payload = envelope } ∷ [];
  workstreams =
      (
        "w",
        record {
          workstream_id = "w";
          project_id = "p";
          state = "READY";
          created_at = 100;
          updated_at = 100;
        },
      )
      ∷ [];
}

half_started :
    ((start_attempt scrub "a" alice 110 carol idle).0 ≡ raise (from_store lost_race))
    × ((start_attempt scrub "a" alice 110 carol idle).1.workstreams
        ≡ (
          "w",
          record {
            workstream_id = "w";
            project_id = "p";
            state = "ACTIVE";
            created_at = 100;
            updated_at = 110;
          },
        )
          ∷ [])
unfolding program
half_started = (refl, refl)
