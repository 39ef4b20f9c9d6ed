-- ===== src/Runtime/Acceptance.antt =====
-- `RuntimeAcceptanceAuthority` of src/artifex/runtime/acceptance.py: who may decide on a finished
-- job, and what evidence an ACCEPT needs. `scrub_secrets` is a parameter.
pub mod Evidence
pub mod Latest
use artifex_dev.Prelude.{
  ℕ, ltb, String, Bool, true, false, not, ◌&&◌, ◌||◌, ◌==◌, Option, none, some, List, [], ◌∷◌,
  if◌then◌else◌, Result, ok, raise, Exec, pure, gets, require, raise_if, lift, ◌>>=◌, ◌>>◌, Dict,
  lookup, str_eq, is_blank, is_distinct, is_subset, folds_to, length,
}
use artifex_dev.Runtime.Actor.{
  ActorLike, AuthorizationError, principal, actor_principal, require_action,
}
use artifex_dev.Runtime.Store.Tables.{
  StoreError, FenceToken, Db, EnvelopeRow, ProjectJob, Attempt, DispatchAuthorization,
  EvidenceRecord, AcceptanceDecision,
}
use artifex_dev.Runtime.Store.Tables
use artifex_dev.Runtime.Store.Lease.{find_envelope}
use artifex_dev.Runtime.Store.Records.{dispatch_authorization, evidence, record_acceptance}
use artifex_dev.Runtime.Coordinator.Base.{is_forbidden}
use artifex_dev.Runtime.Coordinator.Creation.{attempts_in}

-- `AcceptanceOutcome` of src/artifex/runtime/models.py
pub data AcceptanceOutcome : Type 0 where
  accept reject rework require_approval : AcceptanceOutcome

-- The sites that raise in acceptance.py, and the errors that pass through it.
pub data AcceptanceError : Type 0 where
  from_store : StoreError → AcceptanceError
  unauthorized : AuthorizationError → AcceptanceError
  reason_missing job_not_finished run_missing outsider : AcceptanceError
  envelope_missing no_finished_attempt own_dispatch : AcceptanceError
  evidence_not_bound evidence_not_valid : AcceptanceError

abbrev pub Method : Type 0 → Type 0
Method = Exec AcceptanceError Db

abbrev relabel : {A : Type 0} → Result StoreError A × Db → Result AcceptanceError A × Db
relabel (ok a, db) = (ok a, db)
relabel (raise x, db) = (raise (from_store x), db)

unfoldable pub stored : {A : Type 0} → Tables.Method A → Method A
stored m db = relabel (m db)

abbrev authorize : Result AuthorizationError (Unit {0}) → Method (Unit {0})
authorize (ok u) db = (ok tt, db)
authorize (raise x) db = (raise (unauthorized x), db)

-- `job is not None and job["state"] == "FINISHED"`
abbrev finished_job : Option ProjectJob → Option ProjectJob
finished_job none = none
finished_job (some j) = if str_eq j.state "FINISHED" then some j else none

-- `max(attempts, key=ordinal)` over the FINISHED attempts: the first of the greatest ordinal.
abbrev larger : Attempt → Option Attempt → Attempt
larger a none = a
larger a (some b) = if ltb a.ordinal b.ordinal then b else a

unfoldable pub latest_finished : List Attempt → Option Attempt
latest_finished [] = none
latest_finished (a ∷ rest) =
    let best = latest_finished rest in
    if str_eq a.state "FINISHED" then some (larger a best) else best

abbrev pub is_own_dispatch : Option DispatchAuthorization → String → Bool
is_own_dispatch none actor_id = false
is_own_dispatch (some d) actor_id = str_eq d.actor_id actor_id

-- `gate.casefold() in authority_gates`
abbrev pub is_authority_gate : String → Bool
is_authority_gate gate =
    folds_to gate "acceptance"
    || folds_to gate "acceptance-authority"
    || folds_to gate "project-authority"

unfoldable pub own_gates : List String → List String
own_gates [] = []
own_gates (g ∷ gs) = let rest = own_gates gs in if is_authority_gate g then rest else g ∷ rest

-- The test of one record.
abbrev pub is_bound : EnvelopeRow → String → String → EvidenceRecord → Bool
is_bound row job_id attempt_id r =
    str_eq r.project_job_id job_id
    && str_eq r.attempt_id attempt_id
    && str_eq r.envelope_fingerprint row.fingerprint
    && r.baseline_revision == row.payload.baseline_revision
    && r.passed

unfoldable pub all_bound : EnvelopeRow → String → String → List EvidenceRecord → Bool
all_bound row job_id attempt_id [] = true
all_bound row job_id attempt_id (r ∷ rs) =
    is_bound row job_id attempt_id r && all_bound row job_id attempt_id rs

unfoldable pub gates_of : List EvidenceRecord → List String
gates_of [] = []
gates_of (r ∷ rs) = r.gate ∷ gates_of rs

-- `_validate_evidence`
unfoldable pub validate_evidence :
    List EvidenceRecord → List String → String → String → EnvelopeRow → Bool
validate_evidence records requested_ids job_id attempt_id row =
    length records == length requested_ids
    && is_distinct requested_ids
    && all_bound row job_id attempt_id records
    && is_subset (own_gates row.payload.required_gates) (gates_of records)

abbrev has_ids : List String → Bool
has_ids [] = false
has_ids (id ∷ ids) = true

-- What `decide` demands of the evidence.
unfoldable pub check_outcome :
    AcceptanceOutcome → Bool → Bool → Bool → List String → Result AcceptanceError (Unit {0})
check_outcome accept requires_durable durable_valid evidence_valid evidence_ids =
    if requires_durable && not durable_valid
    then raise evidence_not_bound
    else if not evidence_valid || (has_ids evidence_ids && not durable_valid)
    then raise evidence_not_valid
    else ok tt
check_outcome _ requires_durable durable_valid evidence_valid evidence_ids = ok tt

abbrev outcome_name : AcceptanceOutcome → String
outcome_name accept = "ACCEPT"
outcome_name reject = "REJECT"
outcome_name rework = "REWORK"
outcome_name require_approval = "REQUIRE_APPROVAL"

abbrev pub target_state : AcceptanceOutcome → String
target_state accept = "ACCEPTED"
target_state reject = "REJECTED"
target_state rework = "REWORK"
target_state require_approval = "REQUIRE_APPROVAL"

module _ (scrub_secrets : String → String) where
  -- `id` is the new `decision-` identifier.
  unfoldable pub decide :
      String
      → String
      → AcceptanceOutcome
      → Bool
      → FenceToken
      → ℕ
      → ActorLike
      → String
      → List String
      → Option String
      → Method AcceptanceDecision
  decide id job_id outcome evidence_valid token now actor_id reason evidence_ids correlation_id = do
    let p = actor_principal actor_id
    raise_if reason_missing (is_blank reason)
    found ← gets (λ db. finished_job (lookup job_id db.project_jobs))
    job ← require job_not_finished found
    run_row ← gets (λ db. lookup job.run_id db.runs)
    run ← require run_missing run_row
    raise_if outsider (is_forbidden actor_id)
    authorize (require_action p "acceptance:decide" run.project_id now)
    envelope ← gets (λ db. find_envelope run.envelope_id run.envelope_version db.envelopes)
    row ← require envelope_missing envelope
    latest ←
        gets (λ db. latest_finished (attempts_in db.project_jobs job.run_id job_id db.attempts))
    attempt ← require no_finished_attempt latest
    dispatch ← gets (dispatch_authorization attempt.attempt_id)
    raise_if own_dispatch (is_own_dispatch dispatch p.actor_id)
    records ← gets (λ db. evidence evidence_ids db.evidence)
    let durable_valid = validate_evidence records evidence_ids job_id attempt.attempt_id row
    lift (
        check_outcome outcome row.payload.require_durable_evidence durable_valid evidence_valid
          evidence_ids)
    let decision : AcceptanceDecision = record {
      decision_id = id;
      project_job_id = job_id;
      outcome = outcome_name outcome;
      evidence_valid = evidence_valid;
      actor_id = p.actor_id;
      reason = scrub_secrets reason;
      decided_at = now;
      evidence_ids = evidence_ids;
      envelope_fingerprint = some row.fingerprint;
    }
    stored (
        record_acceptance scrub_secrets decision token now (target_state outcome) (principal p)
          correlation_id)
    pure decision
