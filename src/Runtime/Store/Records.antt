-- ===== src/Runtime/Store/Records.antt =====
-- The append-only records of src/artifex/runtime/store.py: dispatch authorizations, evidence,
-- acceptance decisions and events, with the queries that read them.
use artifex_dev.Prelude.{
  ℕ, String, not, ◌||◌, Option, none, some, List, [], ◌∷◌, if◌then◌else◌, gets, modify, raise_if,
  lift, ◌>>=◌, ◌>>◌, Dict, lookup, put, str_eq,
}
use artifex_dev.Runtime.Actor.{ActorLike, is_unidentified}
use artifex_dev.Runtime.Json.{flag, Fields, number, text, texts, field, done, optional_text}
use artifex_dev.Runtime.Store.Tables.{
  unidentified_actor, integrity_error, FenceToken, AcceptanceDecision, DispatchAuthorization,
  EvidenceRecord, Db, Method, transaction, assert_fence, audit,
}
use artifex_dev.Runtime.Store.Transitions.{
  is_some, has_value, Change, no_updates, project_jobs, update_row,
}

-- `DispatchAuthorization.to_dict`
abbrev dispatch_fields : DispatchAuthorization → Fields
dispatch_fields a = field "authorization_id" (text a.authorization_id) (
    field "attempt_id" (text a.attempt_id) (
      field "provider_id" (text a.provider_id) (
        field "provider_role" (text a.provider_role) (
          field "requested_capabilities" (texts a.requested_capabilities) (
            field "filesystem_permissions" (texts a.filesystem_permissions) (
              field "network_permissions" (texts a.network_permissions) (
                field "tool_permissions" (texts a.tool_permissions) (
                  field "credential_reference_ids" (texts a.credential_reference_ids) (
                    field "envelope_fingerprint" (text a.envelope_fingerprint) (
                      field "actor_id" (text a.actor_id)
                        (field "authorized_at" (number a.authorized_at) done)))))))))))

-- `EvidenceRecord.to_dict`
abbrev evidence_fields : EvidenceRecord → Fields
evidence_fields e = field "evidence_id" (text e.evidence_id) (
    field "project_job_id" (text e.project_job_id) (
      field "attempt_id" (text e.attempt_id) (
        field "gate" (text e.gate) (
          field "passed" (flag e.passed) (
            field "envelope_fingerprint" (text e.envelope_fingerprint) (
              field "baseline_revision" (number e.baseline_revision) (
                field "artifact_ref" (text e.artifact_ref) (
                  field "artifact_digest" (text e.artifact_digest) (
                    field "actor_id" (text e.actor_id)
                      (field "recorded_at" (number e.recorded_at) done))))))))))

-- `AcceptanceDecision.to_dict`
abbrev decision_fields : AcceptanceDecision → Fields
decision_fields d = field "decision_id" (text d.decision_id) (
    field "project_job_id" (text d.project_job_id) (
      field "outcome" (text d.outcome) (
        field "evidence_valid" (flag d.evidence_valid) (
          field "actor_id" (text d.actor_id) (
            field "reason" (text d.reason) (
              field "decided_at" (number d.decided_at) (
                field "evidence_ids" (texts d.evidence_ids)
                  (field "envelope_fingerprint" (optional_text d.envelope_fingerprint) done))))))))

-- `SELECT * FROM dispatch_authorizations WHERE attempt_id = ?`; the column is UNIQUE.
unfoldable pub find_dispatch : String → Dict DispatchAuthorization → Option DispatchAuthorization
find_dispatch attempt_id [] = none
find_dispatch attempt_id ((k, a) ∷ rest) =
    if str_eq a.attempt_id attempt_id then some a else find_dispatch attempt_id rest

abbrev pub dispatch_authorization : String → Db → Option DispatchAuthorization
dispatch_authorization attempt_id db = find_dispatch attempt_id db.dispatches

-- `SQLiteRunStore.evidence`: the records that are there, in the order of the request.
unfoldable pub evidence : List String → Dict EvidenceRecord → List EvidenceRecord
evidence [] records = []
evidence (id ∷ ids) records = elim (lookup id records) [
  | none ↦ evidence ids records
  | some r ↦ r ∷ evidence ids records
]

-- `UPDATE project_jobs SET state = ? .. WHERE project_job_id = ? AND state = 'FINISHED'`
abbrev finish_job : AcceptanceDecision → String → Change
finish_job d target_state = record {
  table = "project_jobs";
  id_column = "project_job_id";
  identifier = d.project_job_id;
  expected_state = "FINISHED";
  target_state = target_state;
  updates = no_updates;
}

module _ (scrub_secrets : String → String) where
  unfoldable pub record_dispatch_authorization :
      DispatchAuthorization → FenceToken → ℕ → ActorLike → Option String → Method (Unit {0})
  record_dispatch_authorization a token now actor correlation_id = transaction (do
    assert_fence token now
    refused ← gets (λ db.
        is_some (lookup a.authorization_id db.dispatches)
        || not (is_some (lookup a.attempt_id db.attempts))
        || has_value (λ (b : DispatchAuthorization). str_eq b.attempt_id a.attempt_id)
            db.dispatches)
    raise_if integrity_error refused
    modify (λ db. record db { dispatches = put a.authorization_id a db.dispatches })
    audit scrub_secrets "ATTEMPT_DISPATCH_AUTHORIZED" actor "attempts" a.attempt_id now
        (dispatch_fields a) correlation_id)

  unfoldable pub record_evidence :
      EvidenceRecord → FenceToken → ℕ → ActorLike → Option String → Method (Unit {0})
  record_evidence e token now actor correlation_id = transaction (do
    assert_fence token now
    refused ← gets (λ db.
        is_some (lookup e.evidence_id db.evidence)
        || not (is_some (lookup e.project_job_id db.project_jobs))
        || not (is_some (lookup e.attempt_id db.attempts)))
    raise_if integrity_error refused
    modify (λ db. record db { evidence = put e.evidence_id e db.evidence })
    audit scrub_secrets "EVIDENCE_RECORDED" actor "evidence" e.evidence_id now (evidence_fields e)
        correlation_id)

  -- `record_acceptance`; the decision has the fields of `values`.
  unfoldable pub record_acceptance :
      AcceptanceDecision → FenceToken → ℕ → String → ActorLike → Option String → Method (Unit {0})
  record_acceptance d token now target_state actor correlation_id = do
    raise_if unidentified_actor (is_unidentified actor)
    transaction (do
      assert_fence token now
      refused ← gets (λ db.
          is_some (lookup d.decision_id db.decisions)
          || not (is_some (lookup d.project_job_id db.project_jobs)))
      raise_if integrity_error refused
      modify (λ db. record db { decisions = put d.decision_id d db.decisions })
      updated ← gets (update_row project_jobs (finish_job d target_state) now)
      db ← lift updated
      modify (λ _. db)
      audit scrub_secrets "ACCEPTANCE_DECIDED" actor "project_jobs" d.project_job_id now
          (decision_fields d) correlation_id
      audit scrub_secrets "PROJECT_JOBS_TRANSITION" actor "project_jobs" d.project_job_id now
          (field "from" (text "FINISHED") (field "to" (text target_state) done)) correlation_id)

  unfoldable pub record_event :
      String
      → String
      → String
      → Fields
      → FenceToken
      → ℕ
      → ActorLike
      → Option String
      → Method (Unit {0})
  record_event event_type entity_type entity_id payload token now actor correlation_id = do
    raise_if unidentified_actor (is_unidentified actor)
    transaction (do
      assert_fence token now
      audit scrub_secrets event_type actor entity_type entity_id now payload correlation_id)
