-- ===== src/Runtime/Actor.antt =====
-- The authority part of src/artifex/runtime/models.py: delegations, principals and credentials.
-- Timestamps are whole seconds, as `int(time())` gives them.
pub mod Authority
use artifex_dev.Prelude.{
  ℕ, ltb, leb, String, ◌≡◌, Bool, true, false, not, ◌&&◌, ◌||◌, Option, none, some, List, [], ◌∷◌,
  if◌then◌else◌, Result, ok, raise, str_eq, is_blank, strip, folds_to, contains, is_empty, any,
}

pub data ActorType : Type 0 where
  user artifex_service interaction_client provider agent automation_system_actor : ActorType

-- The sites that raise in this part of models.py, all of `RuntimeAuthorizationError`.
pub data AuthorizationError : Type 0 where
  delegation_incomplete delegation_without_actions delegation_expiry : AuthorizationError
  no_actor_identity no_authentication_method foreign_delegation : AuthorizationError
  not_authenticated lacks_authority : AuthorizationError
  credential_scope_missing secret_in_credential : AuthorizationError

pub record DelegationGrant : Type 0 where
  pub grant_id : String
  pub delegator_id : String
  pub delegate_id : String
  pub project_id : String
  pub allowed_actions : List String
  pub issued_at : ℕ
  pub expires_at : Option ℕ

-- `expires_at is not None and expires_at <= issued_at`
abbrev pub expires_by : Option ℕ → ℕ → Bool
expires_by none t = false
expires_by (some e) t = leb e t

-- `DelegationGrant.__post_init__`
unfoldable pub delegation_grant : DelegationGrant → Result AuthorizationError DelegationGrant
unfolding is_empty any
delegation_grant g =
    if is_blank g.grant_id
      || is_blank g.delegator_id
      || is_blank g.delegate_id
      || is_blank g.project_id
    then raise delegation_incomplete
    else if is_empty g.allowed_actions || any is_blank g.allowed_actions
    then raise delegation_without_actions
    else if expires_by g.expires_at g.issued_at
    then raise delegation_expiry
    else ok g

-- `DelegationGrant.permits`
unfoldable pub grant_permits : DelegationGrant → String → String → String → ℕ → Bool
grant_permits g actor_id project_id action now =
    str_eq actor_id g.delegate_id
    && str_eq project_id g.project_id
    && not (expires_by g.expires_at now)
    && (contains action g.allowed_actions || contains "*" g.allowed_actions)

pub record ActorPrincipal : Type 0 where
  pub actor_id : String
  pub actor_type : ActorType
  pub authenticated : Bool
  pub authentication_method : String
  pub direct_permissions : List String
  pub delegation : Option DelegationGrant

-- `delegation is not None and delegation.delegate_id != actor_id`
abbrev is_foreign : Option DelegationGrant → String → Bool
is_foreign none actor_id = false
is_foreign (some g) actor_id = not (str_eq g.delegate_id actor_id)

-- `ActorPrincipal.__post_init__`
unfoldable pub actor : ActorPrincipal → Result AuthorizationError ActorPrincipal
actor p =
    if is_blank p.actor_id
    then raise no_actor_identity
    else if p.authenticated && is_blank p.authentication_method
    then raise no_authentication_method
    else if is_foreign p.delegation p.actor_id
    then raise foreign_delegation
    else ok p

-- `not self.authenticated or self.actor_id.casefold() == "anonymous"`
unfoldable pub is_anonymous : ActorPrincipal → Bool
is_anonymous p = not p.authenticated || folds_to p.actor_id "anonymous"

abbrev delegation_permits : Option DelegationGrant → String → String → String → ℕ → Bool
delegation_permits none actor_id project_id action now = false
delegation_permits (some g) actor_id project_id action now =
    grant_permits g actor_id project_id action now

-- `ActorPrincipal.require`
unfoldable pub require_action :
    ActorPrincipal → String → String → ℕ → Result AuthorizationError (Unit {0})
require_action p action project_id now =
    if is_anonymous p
    then raise not_authenticated
    else if contains action p.direct_permissions || contains "*" p.direct_permissions
    then ok tt
    else if delegation_permits p.delegation p.actor_id project_id action now
    then ok tt
    else raise lacks_authority

-- `ActorLike`: a plain name, or a principal.
pub data ActorLike : Type 0 where
  named : String → ActorLike
  principal : ActorPrincipal → ActorLike

abbrev unauthenticated : String → ActorPrincipal
unauthenticated value = record {
  actor_id = value;
  actor_type = interaction_client;
  authenticated = false;
  authentication_method = "";
  direct_permissions = [];
  delegation = none;
}

abbrev local_client : String → ActorPrincipal
local_client value = record {
  actor_id = value;
  actor_type = user;
  authenticated = true;
  authentication_method = "authenticated-local-transport";
  direct_permissions = [];
  delegation = none;
}

abbrev legacy_service : String → ActorPrincipal
legacy_service value = record {
  actor_id = value;
  actor_type = artifex_service;
  authenticated = true;
  authentication_method = "legacy-in-process";
  direct_permissions = "*" ∷ [];
  delegation = none;
}

-- `actor_principal`; the principals that it builds pass the checks of their constructor.
unfoldable pub actor_principal : ActorLike → ActorPrincipal
unfolding strip
actor_principal (principal p) = p
actor_principal (named name) =
    let value = strip name in
    if str_eq value "" || folds_to value "anonymous"
    then unauthenticated (if str_eq value "" then "anonymous" else value)
    else if str_eq value "managed-service-local-client"
    then local_client value
    else legacy_service value

-- `SQLiteRunStore._validate_actor`: the test that refuses.
unfoldable pub is_unidentified : ActorLike → Bool
unfolding actor_principal is_anonymous
is_unidentified a = is_anonymous (actor_principal a)

pub record CredentialReference : Type 0 where
  pub reference_id : String
  pub provider_id : String
  pub role : String
  pub project_id : String
  pub expires_at : Option ℕ
  pub revoked : Bool

-- `CredentialReference.__post_init__`, over `scrub_secrets`
unfoldable pub credential_reference :
    (String → String) → CredentialReference → Result AuthorizationError CredentialReference
credential_reference scrub_secrets c =
    if is_blank c.reference_id || is_blank c.provider_id || is_blank c.role || is_blank c.project_id
    then raise credential_scope_missing
    else if not (str_eq (scrub_secrets c.reference_id) c.reference_id)
    then raise secret_in_credential
    else ok c

-- `CredentialReference.permits`
unfoldable pub credential_permits : CredentialReference → String → String → String → ℕ → Bool
credential_permits c provider_id role project_id now =
    not c.revoked
    && str_eq c.provider_id provider_id
    && str_eq c.role role
    && str_eq c.project_id project_id
    && not (expires_by c.expires_at now)
