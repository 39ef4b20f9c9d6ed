-- ===== src/Runtime/Coordinator/Dispatch.antt =====
-- `authorize_attempt_dispatch` and `record_evidence` of src/artifex/runtime/coordinator.py.
pub mod Scope
use artifex_dev.Prelude.{
  ℕ, String, Bool, true, false, not, ◌&&◌, ◌||◌, Option, none, some, List, [], ◌∷◌, if◌then◌else◌,
  Result, ok, raise, pure, gets, require, raise_if, lift, ◌>>=◌, ◌>>◌, ◌==◌, Dict, lookup, str_eq,
  contains, is_subset,
}
use artifex_dev.Runtime.Actor.{
  ActorType, ActorLike, ActorPrincipal, principal, actor_principal, require_action, user,
  artifex_service, interaction_client, provider, agent, automation_system_actor,
  CredentialReference, credential_permits,
}
use artifex_dev.Runtime.Store.Tables.{
  FenceToken, Db, EnvelopeRow, Run, ProjectJob, Attempt, DispatchAuthorization, EvidenceRecord,
}
use artifex_dev.Runtime.Store.Lease.{find_envelope}
use artifex_dev.Runtime.Store.Records
use artifex_dev.Runtime.Coordinator.Base.{
  CoordinatorError, forbidden_actor_type, envelope_missing, deadline_expired, attempt_not_pending,
  provider_not_allowed, role_not_allowed, capability_exceeds, filesystem_exceeds, network_exceeds,
  tool_exceeds, credential_out_of_scope, evidence_job_mismatch, evidence_envelope_mismatch,
  evidence_baseline_mismatch, evidence_foreign_actor, Method, stored, authorize, require_run,
  require_job, require_attempt, require_envelope, is_expired,
}

-- What a caller asks to dispatch.
pub record DispatchRequest : Type 0 where
  pub provider_id : String
  pub provider_role : String
  pub requested_capabilities : List String
  pub filesystem_permissions : List String
  pub network_permissions : List String
  pub tool_permissions : List String
  pub credential_reference_ids : List String

-- `references[reference_id]`, of a dictionary in which the last reference with an id stays.
unfoldable pub reference_of : String → List CredentialReference → Option CredentialReference
reference_of id [] = none
reference_of id (c ∷ cs) = elim (reference_of id cs) [
  | none ↦ if str_eq c.reference_id id then some c else none
  | some later ↦ some later
]

abbrev pub is_permitted : Option CredentialReference → String → String → String → ℕ → Bool
is_permitted none provider_id role project_id now = false
is_permitted (some c) provider_id role project_id now =
    credential_permits c provider_id role project_id now

-- The loop over `credential_reference_ids`
unfoldable pub all_permitted :
    List String → List CredentialReference → String → String → String → ℕ → Bool
all_permitted [] references provider_id role project_id now = true
all_permitted (id ∷ ids) references provider_id role project_id now =
    is_permitted (reference_of id references) provider_id role project_id now
    && all_permitted ids references provider_id role project_id now

-- The checks of `authorize_attempt_dispatch` on the envelope.
unfoldable pub check_scope :
    EnvelopeRow → DispatchRequest → String → ℕ → Result CoordinatorError (Unit {0})
check_scope row q project_id now =
    let e = row.payload in
    if not (contains q.provider_id e.allowed_providers)
    then raise provider_not_allowed
    else if not (contains q.provider_role e.allowed_provider_roles)
    then raise role_not_allowed
    else if not (is_subset q.requested_capabilities e.allowed_capabilities)
    then raise capability_exceeds
    else if not (is_subset q.filesystem_permissions e.filesystem_permissions)
    then raise filesystem_exceeds
    else if not (is_subset q.network_permissions e.network_permissions)
    then raise network_exceeds
    else if not (is_subset q.tool_permissions e.tool_permissions)
    then raise tool_exceeds
    else if is_expired e.deadline_at now
    then raise deadline_expired
    else if not (
        all_permitted q.credential_reference_ids e.credential_references q.provider_id
          q.provider_role project_id now)
    then raise credential_out_of_scope
    else ok tt

-- The actor types that may dispatch.
abbrev pub is_dispatcher : ActorType → Bool
is_dispatcher artifex_service = true
is_dispatcher agent = true
is_dispatcher automation_system_actor = true
is_dispatcher _ = false

abbrev pub authorization :
    String → String → DispatchRequest → EnvelopeRow → ActorPrincipal → ℕ → DispatchAuthorization
authorization id attempt_id q row actor now = record {
  authorization_id = id;
  attempt_id = attempt_id;
  provider_id = q.provider_id;
  provider_role = q.provider_role;
  requested_capabilities = q.requested_capabilities;
  filesystem_permissions = q.filesystem_permissions;
  network_permissions = q.network_permissions;
  tool_permissions = q.tool_permissions;
  credential_reference_ids = q.credential_reference_ids;
  envelope_fingerprint = row.fingerprint;
  actor_id = actor.actor_id;
  authorized_at = now;
}

module _ (scrub_secrets : String → String) where
  -- `id` is the new `dispatch-` identifier.
  unfoldable pub authorize_attempt_dispatch :
      String
      → String
      → DispatchRequest
      → FenceToken
      → ℕ
      → ActorPrincipal
      → Option String
      → Method DispatchAuthorization
  authorize_attempt_dispatch id attempt_id q token now actor correlation_id = do
    attempt ← require_attempt attempt_id
    raise_if attempt_not_pending (not (str_eq attempt.state "PENDING"))
    job ← require_job attempt.project_job_id
    run ← require_run job.run_id
    authorize (require_action actor "runtime:dispatch" run.project_id now)
    raise_if forbidden_actor_type (not (is_dispatcher actor.actor_type))
    row ← require_envelope envelope_missing run
    lift (check_scope row q run.project_id now)
    let a = authorization id attempt_id q row actor now
    stored (
        Records.record_dispatch_authorization scrub_secrets a token now (principal actor)
          correlation_id)
    pure a

  -- `seen` is the clock at the check of the actor.
  unfoldable pub record_evidence :
      EvidenceRecord → FenceToken → ℕ → ℕ → ActorLike → Option String → Method (Unit {0})
  record_evidence evidence token seen now actor correlation_id = do
    attempt ← require_attempt evidence.attempt_id
    raise_if evidence_job_mismatch (not (str_eq attempt.project_job_id evidence.project_job_id))
    job ← require_job evidence.project_job_id
    run ← require_run job.run_id
    row ← require_envelope evidence_envelope_mismatch run
    raise_if evidence_envelope_mismatch (not (str_eq evidence.envelope_fingerprint row.fingerprint))
    raise_if evidence_baseline_mismatch
        (not (evidence.baseline_revision == row.payload.baseline_revision))
    authorize (require_action (actor_principal actor) "evidence:record" run.project_id seen)
    raise_if evidence_foreign_actor
        (not (str_eq (actor_principal actor).actor_id evidence.actor_id))
    stored (
        Records.record_evidence scrub_secrets evidence token now (principal (actor_principal actor))
          correlation_id)
