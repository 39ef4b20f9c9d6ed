-- ===== src/Runtime/Coordinator/Dispatch/Scope.antt =====
-- A dispatch that the coordinator authorizes is within the run's envelope.
use artifex_dev.Prelude.{
  ℕ, String, ◌≡◌, inl, inr, true, false, Bool-cases, Option, List, [], ◌∷◌, ok, arith, lookup,
  contains, is_subset, str_eq, eq_iff, ◌>>=◌,
}
use artifex_dev.Runtime.Actor.{ActorPrincipal, require_action}
use artifex_dev.Runtime.Store.Tables.{FenceToken, Db, EnvelopeRow, DispatchAuthorization}
use artifex_dev.Runtime.Store.Lease.{find_envelope}
use artifex_dev.Runtime.Coordinator.Base.{Found, is_expired, stored}
use artifex_dev.Runtime.Coordinator.Dispatch.{
  DispatchRequest, reference_of, is_permitted, all_permitted, check_scope, is_dispatcher,
  authorization, authorize_attempt_dispatch,
}

pub IsSubset-contains :
    (xs ys : List String)
    → is_subset xs ys ≡ true
    → (x : String) → contains x xs ≡ true
    → contains x ys ≡ true
unfolding is_subset contains
IsSubset-contains [] ys h x m = absurd (ground arith)
IsSubset-contains (y ∷ xs) ys h x m = elim (Bool-cases (str_eq y x)) [
  | inl same ↦ ground (arith, eq_iff y x)
  | inr other ↦ IsSubset-contains xs ys (ground arith) x (ground arith)
]

-- The request is within the envelope of the row.
pub record Within (row : EnvelopeRow) (q : DispatchRequest) (project_id : String) (now : ℕ)
    : Type 0 where
  pub provider : contains q.provider_id row.payload.allowed_providers ≡ true
  pub role : contains q.provider_role row.payload.allowed_provider_roles ≡ true
  pub capabilities :
      (c : String)
      → contains c q.requested_capabilities ≡ true
      → contains c row.payload.allowed_capabilities ≡ true
  pub filesystem :
      (p : String)
      → contains p q.filesystem_permissions ≡ true
      → contains p row.payload.filesystem_permissions ≡ true
  pub network :
      (p : String)
      → contains p q.network_permissions ≡ true
      → contains p row.payload.network_permissions ≡ true
  pub tools :
      (p : String)
      → contains p q.tool_permissions ≡ true
      → contains p row.payload.tool_permissions ≡ true
  pub in_time : is_expired row.payload.deadline_at now ≡ false
  pub credentials :
      (id : String)
      → contains id q.credential_reference_ids ≡ true
      → is_permitted
          (reference_of id row.payload.credential_references)
          q.provider_id
          q.provider_role
          project_id
          now
        ≡ true

all_permitted-each :
    (q : DispatchRequest) (row : EnvelopeRow) (project_id : String) (now : ℕ) (ids : List String)
    → all_permitted ids row.payload.credential_references q.provider_id q.provider_role project_id
        now
      ≡ true
    → (id : String) → contains id ids ≡ true
    → is_permitted
        (reference_of id row.payload.credential_references)
        q.provider_id
        q.provider_role
        project_id
        now
      ≡ true
unfolding all_permitted contains
all_permitted-each q row project_id now [] h id m = absurd (ground arith)
all_permitted-each q row project_id now (k ∷ ids) h id m = elim (Bool-cases (str_eq k id)) [
  | inl same ↦ ground (arith, eq_iff k id)
  | inr other ↦ all_permitted-each q row project_id now ids (ground arith) id (ground arith)
]

pub check_scope-Within :
    (row : EnvelopeRow) (q : DispatchRequest) (project_id : String) (now : ℕ)
    → check_scope row q project_id now ≡ ok tt
    → Within row q project_id now
unfolding check_scope
check_scope-Within row q project_id now h = record {
  provider = ground arith;
  role = ground arith;
  capabilities = IsSubset-contains _ _ (ground arith);
  filesystem = IsSubset-contains _ _ (ground arith);
  network = IsSubset-contains _ _ (ground arith);
  tools = IsSubset-contains _ _ (ground arith);
  in_time = ground arith;
  credentials = all_permitted-each q row project_id now _ (ground arith);
}

module _ (scrub_secrets : String → String) where
  -- A dispatch that is authorized returns the authorization of the request; the attempt is PENDING,
  -- the actor holds "runtime:dispatch" in the run's project and is a service, an agent or an
  -- automation, and the provider, its role, each capability, permission and credential are allowed
  -- by the run's envelope, whose deadline has not passed.
  pub dispatch_confined :
      (id attempt_id : String) (q : DispatchRequest) (token : FenceToken) (now : ℕ)
      (actor : ActorPrincipal) (correlation : Option String) (db : Db) (a : DispatchAuthorization)
      → (authorize_attempt_dispatch scrub_secrets id attempt_id q token now actor correlation db).0
        ≡ ok a
      → Found (lookup attempt_id db.attempts) λ attempt.
        (attempt.state ≡ "PENDING")
        × Found (lookup attempt.project_job_id db.project_jobs) λ job.
          Found (lookup job.run_id db.runs) λ run.
            (require_action actor "runtime:dispatch" run.project_id now ≡ ok tt)
            × (is_dispatcher actor.actor_type ≡ true)
            × Found (find_envelope run.envelope_id run.envelope_version db.envelopes) λ row.
              Within row q run.project_id now × (a ≡ authorization id attempt_id q row actor now)
  unfolding authorize_attempt_dispatch stored ◌>>=◌
  dispatch_confined id attempt_id q token now actor correlation db a h =
      grind (arith, eq_iff, check_scope-Within)
