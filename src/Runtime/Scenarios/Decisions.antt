-- ===== src/Runtime/Scenarios/Decisions.antt =====
-- Runs of the acceptance authority, and its theorems at concrete inputs.
use artifex_dev.Prelude.{String, ◌≡◌, refl, true, false, none, some, [], ◌∷◌, ok, raise, contains}
use artifex_dev.Runtime.Actor.{actor_principal, require_action}
use artifex_dev.Runtime.Store.Tables.{Attempt, Db, AcceptanceDecision}
use artifex_dev.Runtime.Store.Records.{dispatch_authorization}
use artifex_dev.Runtime.Coordinator.Creation.{attempts_in}
use artifex_dev.Runtime.Acceptance.{accept, evidence_not_bound, is_authority_gate, decide}
use artifex_dev.Runtime.Acceptance.Evidence
use artifex_dev.Runtime.Acceptance.Evidence.{Covers}
use artifex_dev.Runtime.Acceptance.Latest.{IsDecider, IsLatest, IsByOther}
use artifex_dev.Runtime.Scenarios.{program, scrub, alice, row, job_in, world, carol}

-- The attempt is over, and its tests passed.
abbrev proven : Db
proven = record (world "RUNNING" "FINISHED" "FINISHED" none) {
  evidence =
      (
        "e",
        record {
          evidence_id = "e";
          project_job_id = "j";
          attempt_id = "a";
          gate = "tests";
          passed = true;
          envelope_fingerprint = "env-1-hash";
          baseline_revision = 3;
          artifact_ref = "report";
          artifact_digest = "0";
          actor_id = "ci";
          recorded_at = 109;
        },
      )
      ∷ [];
}

abbrev decision : AcceptanceDecision
decision = record {
  decision_id = "d";
  project_job_id = "j";
  outcome = "ACCEPT";
  evidence_valid = true;
  actor_id = "carol";
  reason = "good";
  decided_at = 110;
  evidence_ids = "e" ∷ [];
  envelope_fingerprint = some "env-1-hash";
}

accepted :
    (decide scrub "d" "j" accept true alice 110 carol "good" ("e" ∷ []) none proven).0 ≡ ok decision
unfolding program
accepted = refl

without_evidence :
    (decide scrub "d" "j" accept true alice 110 carol "good" [] none proven).0
    ≡ raise evidence_not_bound
unfolding program
without_evidence = refl

accept_covered_example :
    ((job_in "FINISHED").state ≡ "FINISHED")
    × (true ≡ true
        → (gate : String) → contains gate ("tests" ∷ []) ≡ true
        → is_authority_gate gate ≡ false
        → Covers row "j" "a" ("e" ∷ []) proven.evidence gate)
unfolding program
accept_covered_example =
    Evidence.accept_covered scrub "d" "j" true alice 110 carol "good" ("e" ∷ []) none proven
      decision accepted

decide_separated_example :
    IsDecider carol
    × (require_action (actor_principal carol) "acceptance:decide" "p" 110 ≡ ok tt)
    × ((attempt : Attempt) × IsLatest
          (attempts_in proven.project_jobs "r" "j" proven.attempts)
          attempt
        × IsByOther (dispatch_authorization attempt.attempt_id proven) "carol")
unfolding program
decide_separated_example =
    Evidence.decide_separated scrub "d" "j" accept true alice 110 carol "good" ("e" ∷ []) none
      proven decision accepted
