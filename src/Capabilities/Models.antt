-- ===== src/Capabilities/Models.antt =====
-- src/artifex/capabilities/models.py and registry.py. A `frozenset` is the list of its members.
use artifex_dev.Prelude.{
  String, Bool, true, false, not, ◌||◌, Option, none, some, List, [], ◌∷◌, if◌then◌else◌, all, any,
  Result, ok, raise, gets, modify, raise_if, Exec, ◌>>=◌, ◌>>◌, Dict, lookup, put, sort_keys,
  str_eq, is_blank, is_empty,
}

pub data ProviderRole : Type 0 where
  interaction execution_implementer harness research inference compute validation : ProviderRole

pub data ReadinessState : Type 0 where
  not_detected detected configured authenticated healthy registered available : ReadinessState

pub data GovernanceMode : Type 0 where
  standalone provider_managed atlas_governed : GovernanceMode

pub data DataClassification : Type 0 where
  public internal confidential restricted : DataClassification

-- `ProviderRole.value`
abbrev role_name : ProviderRole → String
role_name interaction = "INTERACTION"
role_name execution_implementer = "EXECUTION_IMPLEMENTER"
role_name harness = "HARNESS"
role_name research = "RESEARCH"
role_name inference = "INFERENCE"
role_name compute = "COMPUTE"
role_name validation = "VALIDATION"

-- `role in roles`
unfoldable pub has_role : ProviderRole → List ProviderRole → Bool
has_role r [] = false
has_role r (s ∷ ss) = str_eq (role_name s) (role_name r) || has_role r ss

pub data CapabilityError : Type 0 where
  identity_missing scopes_missing command_missing roles_missing : CapabilityError
  reference_mismatch readiness_mismatch uncertifiable_role already_registered : CapabilityError

pub record CredentialReference : Type 0 where
  pub broker : String
  pub reference : String
  pub provider_id : String
  pub scopes : List String

-- `CredentialReference.__post_init__`
unfoldable pub credential_reference :
    CredentialReference → Result CapabilityError CredentialReference
credential_reference c =
    if is_blank c.broker || is_blank c.reference || is_blank c.provider_id
    then raise identity_missing
    else if is_empty c.scopes || any is_blank c.scopes
    then raise scopes_missing
    else ok c

pub record ProviderConfiguration : Type 0 where
  pub provider_id : String
  pub enabled : Bool
  pub roles : List ProviderRole
  pub governance_mode : GovernanceMode
  pub command : List String
  pub credential_reference : Option CredentialReference

abbrev is_of : Option CredentialReference → String → Bool
is_of none provider_id = true
is_of (some c) provider_id = str_eq c.provider_id provider_id

-- `ProviderConfiguration.__post_init__`
unfoldable pub provider_configuration :
    ProviderConfiguration → Result CapabilityError ProviderConfiguration
provider_configuration c =
    if is_blank c.provider_id || is_empty c.command || any is_blank c.command
    then raise command_missing
    else if is_empty c.roles
    then raise roles_missing
    else if not (is_of c.credential_reference c.provider_id)
    then raise reference_mismatch
    else ok c

pub record ProviderReadiness : Type 0 where
  pub provider_id : String
  pub state : ReadinessState
  pub checks : Dict Bool
  pub executable : Option String
  pub command : List String
  pub version : Option String
  pub detail : String
  pub auth_probe_sha256 : Option String
  pub executable_sha256 : Option String

pub record ProviderInstance : Type 0 where
  pub instance_id : String
  pub configuration : ProviderConfiguration
  pub readiness : ProviderReadiness
  pub capabilities : List String
  pub certified_roles : List ProviderRole

-- `ProviderInstance.__post_init__`
unfoldable pub provider_instance : ProviderInstance → Result CapabilityError ProviderInstance
provider_instance p =
    if is_blank p.instance_id
    then raise identity_missing
    else if not (str_eq p.readiness.provider_id p.configuration.provider_id)
    then raise readiness_mismatch
    else if not (all (λ r. has_role r p.configuration.roles) p.certified_roles)
    then raise uncertifiable_role
    else ok p

-- `ProviderInstance.provider_id`
abbrev pub provider_id : ProviderInstance → String
provider_id p = p.configuration.provider_id

abbrev pub is_available : ReadinessState → Bool
is_available available = true
is_available _ = false

-- `ProviderInstance.globally_available`
abbrev pub globally_available : ProviderInstance → Bool
globally_available p = is_available p.readiness.state

pub record ActorContext : Type 0 where
  pub actor_id : String
  pub actor_type : String
  pub delegated_roles : List ProviderRole

-- `ActorContext.__post_init__`
unfoldable pub actor_context : ActorContext → Result CapabilityError ActorContext
actor_context a =
    if is_blank a.actor_id || is_blank a.actor_type then raise identity_missing else ok a

pub record CapabilityRequest : Type 0 where
  pub project_id : String
  pub project_job_id : String
  pub role : ProviderRole
  pub capabilities : List String
  pub allowed_providers : List String
  pub envelope_capabilities : List String
  pub actor : ActorContext
  pub data_classification : DataClassification
  pub preferred_provider : Option String
  pub project_allowed_providers : List String
  pub project_allowed_roles : List ProviderRole

-- `CapabilityRequest.__post_init__`
unfoldable pub capability_request : CapabilityRequest → Result CapabilityError CapabilityRequest
capability_request r =
    if is_blank r.project_id || is_blank r.project_job_id then raise identity_missing else ok r

pub record CapabilityGraph : Type 0 where
  pub providers : List ProviderInstance
  pub source : String

-- `CapabilityGraph.provider`
unfoldable pub provider : List ProviderInstance → String → Option ProviderInstance
provider [] id = none
provider (p ∷ ps) id = if str_eq (provider_id p) id then some p else provider ps id

-- `CapabilityRegistry`, its `_providers`.
abbrev pub Registry : Type 0
Registry = Dict ProviderInstance

abbrev is_there : Option ProviderInstance → Bool
is_there none = false
is_there (some p) = true

unfoldable pub register : ProviderInstance → Exec CapabilityError Registry (Unit {0})
register p = do
  known ← gets (lookup (provider_id p))
  raise_if already_registered (is_there known)
  modify (put (provider_id p) p)

unfoldable pub values : Registry → List ProviderInstance
values [] = []
values ((k, p) ∷ ps) = p ∷ values ps

-- `CapabilityRegistry.graph`
unfoldable pub graph : Registry → String → CapabilityGraph
graph registry source = record { providers = values (sort_keys registry); source = source }
