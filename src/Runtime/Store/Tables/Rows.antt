-- ===== src/Runtime/Store/Tables/Rows.antt =====
-- The rows of the tables of src/artifex/runtime/store.py, and the errors of its methods. A stored
-- envelope's payload is the envelope itself: `json.loads` undoes `json.dumps`, here and for the
-- lists and dictionaries that a column holds as JSON.
use artifex_dev.Prelude.{ℕ, String, Bool, Option, List, Dict}
use artifex_dev.Runtime.Actor.{ActorType, AuthorizationError}
use artifex_dev.Runtime.Envelope.{ExecutionEnvelope}
use artifex_dev.Runtime.Json.{Json}

-- The sites that raise in store.py. `integrity_error` and `no_such_column` are SQLite's own.
pub data StoreError : Type 0 where
  bad_lease_request coordinator_held stale_token : StoreError
  unapproved_envelope approved_proposal immutable_envelope : StoreError
  unauthorized : AuthorizationError → StoreError
  unidentified_actor empty_batch unsupported_target lost_race : StoreError
  integrity_error no_such_column : StoreError
  claims_approval proposal_not_pending session_mismatch no_affected_workstreams : StoreError
  request_not_open : StoreError

pub record FenceToken : Type 0 where
  pub holder_id : String
  pub generation : ℕ
  pub expires_at : ℕ

-- `coordinator_lease`, the row with id 1
pub record Lease : Type 0 where
  pub holder_id : String
  pub generation : ℕ
  pub expires_at : ℕ

pub record EnvelopeRow : Type 0 where
  pub fingerprint : String
  pub approved_by : String
  pub payload : ExecutionEnvelope

pub record Workstream : Type 0 where
  pub workstream_id : String
  pub project_id : String
  pub state : String
  pub created_at : ℕ
  pub updated_at : ℕ

pub record Run : Type 0 where
  pub run_id : String
  pub workstream_id : String
  pub project_id : String
  pub envelope_id : String
  pub envelope_version : ℕ
  pub state : String
  pub created_at : ℕ
  pub updated_at : ℕ

pub record ProjectJob : Type 0 where
  pub project_job_id : String
  pub run_id : String
  pub state : String
  pub purpose : String
  pub created_at : ℕ
  pub updated_at : ℕ

pub record Attempt : Type 0 where
  pub attempt_id : String
  pub project_job_id : String
  pub ordinal : ℕ
  pub state : String
  pub result_claim : Option String
  pub reconciliation_outcome : Option String
  pub created_at : ℕ
  pub updated_at : ℕ

pub record Workspace : Type 0 where
  pub workspace_id : String
  pub attempt_id : String
  pub project_root : String
  pub workspace_root : String
  pub baseline_revision : ℕ
  pub state : String
  pub created_at : ℕ

pub record AcceptanceDecision : Type 0 where
  pub decision_id : String
  pub project_job_id : String
  pub outcome : String
  pub evidence_valid : Bool
  pub actor_id : String
  pub reason : String
  pub decided_at : ℕ
  pub evidence_ids : List String
  pub envelope_fingerprint : Option String

pub record DispatchAuthorization : Type 0 where
  pub authorization_id : String
  pub attempt_id : String
  pub provider_id : String
  pub provider_role : String
  pub requested_capabilities : List String
  pub filesystem_permissions : List String
  pub network_permissions : List String
  pub tool_permissions : List String
  pub credential_reference_ids : List String
  pub envelope_fingerprint : String
  pub actor_id : String
  pub authorized_at : ℕ

pub record EvidenceRecord : Type 0 where
  pub evidence_id : String
  pub project_job_id : String
  pub attempt_id : String
  pub gate : String
  pub passed : Bool
  pub envelope_fingerprint : String
  pub baseline_revision : ℕ
  pub artifact_ref : String
  pub artifact_digest : String
  pub actor_id : String
  pub recorded_at : ℕ

-- `runtime_audit`; the row's place in the list is its `sequence`.
pub record AuditRow : Type 0 where
  pub event_type : String
  pub actor_id : String
  pub actor_kind : ActorType
  pub authentication_method : String
  pub delegation_id : Option String
  pub correlation_id : Option String
  pub entity_type : String
  pub entity_id : String
  pub occurred_at : ℕ
  pub payload : Json

pub record EnvelopeProposal : Type 0 where
  pub envelope_id : String
  pub version : ℕ
  pub project_id : String
  pub fingerprint : String
  pub proposed_by : String
  pub payload : ExecutionEnvelope
  pub proposed_at : ℕ
  pub state : String

pub record SessionRow : Type 0 where
  pub session_id : String
  pub project_id : String
  pub workstream_id : Option String
  pub run_id : Option String
  pub actor_id : String
  pub actor_type : ActorType
  pub delegation_id : Option String
  pub delegated_actions : List String
  pub opened_revision : ℕ
  pub last_seen_revision : ℕ
  pub state : String
  pub reconnect_token_hash : String
  pub created_at : ℕ
  pub updated_at : ℕ

pub record DecisionRequest : Type 0 where
  pub decision_request_id : String
  pub project_id : String
  pub run_id : Option String
  pub requested_by : String
  pub materiality : String
  pub question : String
  pub affected_workstreams : List String
  pub blocked_from_states : Dict String
  pub state : String
  pub outcome : Option String
  pub resolution : Option String
  pub resolved_by : Option String
  pub created_at : ℕ
  pub resolved_at : Option ℕ

pub record OperationalControl : Type 0 where
  pub scope_type : String
  pub scope_id : String
  pub project_id : Option String
  pub state : String
  pub reason : String
  pub generation : ℕ
  pub actor_id : String
  pub updated_at : ℕ
