-- ===== src/Runtime/Scenarios/Dispatches.antt =====
-- Runs of the dispatch and the limit on attempts, and its theorems at concrete inputs.
use artifex_dev.Prelude.{◌≡◌, ◌≤◌, refl, true, none, ok}
use artifex_dev.Runtime.Actor.{require_action}
use artifex_dev.Runtime.Coordinator.Creation.{attempts_in, count, create_attempt}
use artifex_dev.Runtime.Coordinator.Creation.Limit
use artifex_dev.Runtime.Coordinator.Dispatch.{authorization, authorize_attempt_dispatch}
use artifex_dev.Runtime.Coordinator.Dispatch.Scope
use artifex_dev.Runtime.Coordinator.Dispatch.Scope.{Within}
use artifex_dev.Runtime.Scenarios.{
  program, scrub, alice, row, attempt_in, bot, carol, request, pending,
}

authorized :
    (authorize_attempt_dispatch scrub "d" "a" request alice 110 bot none pending).0
    ≡ ok (authorization "d" "a" request row bot 110)
unfolding program
authorized = refl

dispatch_confined_example :
    ((attempt_in "PENDING" none).state ≡ "PENDING")
    × ((require_action bot "runtime:dispatch" "p" 110 ≡ ok tt)
        × (true ≡ true)
        × (Within row request "p" 110
            × (authorization "d" "a" request row bot 110
                ≡ authorization "d" "a" request row bot 110)))
unfolding program
dispatch_confined_example =
    Scope.dispatch_confined scrub "d" "a" request alice 110 bot none pending _ authorized

second_attempt : (create_attempt scrub "b" "j" alice 110 carol pending).0 ≡ ok tt
unfolding program
second_attempt = refl

attempts_bounded_example :
    count (
      attempts_in
        (create_attempt scrub "b" "j" alice 110 carol pending).1.project_jobs
        "r"
        "j"
        (create_attempt scrub "b" "j" alice 110 carol pending).1.attempts)
    ≤ 2
unfolding program
attempts_bounded_example =
    Limit.attempts_bounded scrub "b" "j" alice 110 carol pending second_attempt
