-- ===== src/Runtime/Store/Tables.antt =====
-- The tables of src/artifex/runtime/store.py, the transaction, the fence and the audit row that
-- its methods share. A table with a primary key of one column is a dictionary by that key. `Rows`
-- has the rows.
mod Rows
pub use Rows.*
use artifex_dev.Prelude.{
  ℕ, leb, ◌==◌, String, Bool, false, not, ◌&&◌, Option, none, some, List, [], ◌∷◌, ◌++◌, Result, ok,
  raise, Exec, gets, modify, raise_if, ◌>>=◌, Dict, str_eq,
}
use artifex_dev.Runtime.Actor.{
  ActorType, ActorPrincipal, ActorLike, DelegationGrant, AuthorizationError, actor_principal, user,
  artifex_service, interaction_client, provider, agent, automation_system_actor,
}
use artifex_dev.Runtime.Envelope.{ExecutionEnvelope}
use artifex_dev.Runtime.Json.{
  Json, flag, text, object, Fields, done, field, secret_safe, with_field, optional_text,
}

pub record Db : Type 0 where
  pub lease : Option Lease
  pub envelopes : List EnvelopeRow
  pub workstreams : Dict Workstream
  pub runs : Dict Run
  pub project_jobs : Dict ProjectJob
  pub attempts : Dict Attempt
  pub workspaces : Dict Workspace
  pub decisions : Dict AcceptanceDecision
  pub dispatches : Dict DispatchAuthorization
  pub evidence : Dict EvidenceRecord
  pub proposals : List EnvelopeProposal
  pub sessions : Dict SessionRow
  pub decision_requests : Dict DecisionRequest
  pub controls : List OperationalControl
  pub audit : List AuditRow

abbrev pub empty_db : Db
empty_db = record {
  lease = none;
  envelopes = [];
  workstreams = [];
  runs = [];
  project_jobs = [];
  attempts = [];
  workspaces = [];
  decisions = [];
  dispatches = [];
  evidence = [];
  proposals = [];
  sessions = [];
  decision_requests = [];
  controls = [];
  audit = [];
}

abbrev pub Method : Type 0 → Type 0
Method = Exec StoreError Db

-- `with self._transaction()`: what raises inside is rolled back.
abbrev pub commit_or_rollback :
    {A : Type 0} → Db → Result StoreError A × Db → Result StoreError A × Db
commit_or_rollback db (ok a, db') = (ok a, db')
commit_or_rollback db (raise x, db') = (raise x, db)

-- What an UPDATE by key leaves, or this error if it changes no row.
abbrev pub changed : {A : Type 0} → StoreError → (A → Db) → Option A → Result StoreError Db
changed x set none = raise x
changed x set (some a) = ok (set a)

unfoldable pub transaction : {A : Type 0} → Method A → Method A
transaction body db = commit_or_rollback db (body db)

-- The test of `_assert_fence`
abbrev pub holds : Option Lease → FenceToken → ℕ → Bool
holds none token now = false
holds (some l) token now =
    str_eq l.holder_id token.holder_id
    && l.generation == token.generation
    && not (leb l.expires_at now)

unfoldable pub assert_fence : FenceToken → ℕ → Method (Unit {0})
assert_fence token now = do
  held ← gets (λ db. holds db.lease token now)
  raise_if stale_token (not held)

-- `ActorType.value`
abbrev pub type_name : ActorType → String
type_name user = "USER"
type_name artifex_service = "ARTIFEX_SERVICE"
type_name interaction_client = "INTERACTION_CLIENT"
type_name provider = "PROVIDER"
type_name agent = "AGENT"
type_name automation_system_actor = "AUTOMATION_SYSTEM_ACTOR"

abbrev pub grant_id_of : Option DelegationGrant → Option String
grant_id_of none = none
grant_id_of (some g) = some g.grant_id

abbrev delegator_of : Option DelegationGrant → Option String
delegator_of none = none
delegator_of (some g) = some g.delegator_id

-- `ActorPrincipal.to_audit_dict`
abbrev pub to_audit_dict : ActorPrincipal → Json
to_audit_dict p = object (
    field "actor_id" (text p.actor_id) (
      field "actor_type" (text (type_name p.actor_type)) (
        field "authenticated" (flag p.authenticated) (
          field "authentication_method" (text p.authentication_method) (
            field "delegation_id" (optional_text (grant_id_of p.delegation))
              (field "delegated_by" (optional_text (delegator_of p.delegation)) done))))))

module _ (scrub_secrets : String → String) where
  -- The row that `_audit` writes.
  abbrev pub audit_row :
      String → ActorLike → String → String → ℕ → Fields → Option String → AuditRow
  audit_row event_type actor entity_type entity_id occurred_at payload correlation_id =
      let p = actor_principal actor in
      record {
        event_type = event_type;
        actor_id = p.actor_id;
        actor_kind = p.actor_type;
        authentication_method = p.authentication_method;
        delegation_id = grant_id_of p.delegation;
        correlation_id = correlation_id;
        entity_type = entity_type;
        entity_id = entity_id;
        occurred_at = occurred_at;
        payload = secret_safe scrub_secrets (object (with_field payload "actor" (to_audit_dict p)));
      }

  -- `SQLiteRunStore._audit`
  unfoldable pub audit :
      String → ActorLike → String → String → ℕ → Fields → Option String → Method (Unit {0})
  audit event_type actor entity_type entity_id occurred_at payload correlation_id = modify λ db.
      record db {
        audit =
            db.audit
            ++ (audit_row event_type actor entity_type entity_id occurred_at payload correlation_id
                ∷ []);
      }
