-- ===== src/Runtime/Envelope.antt =====
-- `ExecutionEnvelope` of src/artifex/runtime/models.py: the approved scope of a run.
-- `scrub_secrets` is a parameter: the checks use it only to see whether it changes a text.
pub mod Scope
use artifex_dev.Prelude.{
  ℕ, ℤ, is_negative, ltb, String, ◌≡◌, Bool, true, false, not, ◌&&◌, ◌||◌, Option, none, some, List,
  [], ◌∷◌, ◌++◌, map, if◌then◌else◌, Result, ok, raise, and_then, str_eq, is_blank, contains,
  is_distinct, is_empty, any, all, has_prefix, codes, leb, length, ◌==◌,
}
use Prim.Native.String.{◌++◌ as ◌<>◌}
use artifex_dev.Runtime.Actor.{CredentialReference}
use artifex_dev.Runtime.Path.{PathError, safe_relative_path}

pub data SupervisionLevel : Type 0 where
  l1 l2 l3 l4 : SupervisionLevel

pub data Materiality : Type 0 where
  operational tactical strategic_material : Materiality

-- The sites that raise an `EnvelopeError`.
pub data EnvelopeError : Type 0 where
  identity_missing counters_not_positive scope_missing : EnvelopeError
  bad_path : PathError → EnvelopeError
  duplicate_paths blank_capability_or_gate data_rules_missing secret_like_material : EnvelopeError
  bad_filesystem_permission provider_without_role role_without_provider : EnvelopeError
  codex_outside_providers provider_without_baseline bad_fingerprint bad_commit : EnvelopeError
  foreign_credential bad_budget bad_deadline : EnvelopeError

pub record ExecutionEnvelope : Type 0 where
  pub envelope_id : String
  pub version : ℕ
  pub project_id : String
  pub objective : String
  pub baseline_revision : ℕ
  pub actor_id : String
  pub allowed_paths : List String
  pub allowed_capabilities : List String
  pub required_gates : List String
  pub max_attempts : ℕ
  pub recovery_policy : String
  pub stop_on_unknown : Bool
  pub approved : Bool
  pub supervision_level : SupervisionLevel
  pub materiality : Materiality
  pub allowed_workstreams : List String
  pub allowed_providers : List String
  pub allowed_provider_roles : List String
  pub filesystem_permissions : List String
  pub network_permissions : List String
  pub tool_permissions : List String
  pub data_classification : String
  pub credential_references : List CredentialReference
  pub resource_budget : List (String × ℤ)
  pub deadline_at : Option ℕ
  pub stop_conditions : List String
  pub require_durable_evidence : Bool
  pub baseline_fingerprint : Option String
  pub baseline_commit : Option String

-- `tuple(_safe_relative_path(path) for path in paths)`
unfoldable pub normalize_all : List String → Result PathError (List String)
normalize_all [] = ok []
normalize_all (p ∷ ps) =
    let rest = normalize_all ps in
    and_then (safe_relative_path p) λ q. and_then rest λ qs. ok (q ∷ qs)

-- `[a-f0-9]` of one character, and `re.fullmatch(r"[a-f0-9]{n}", value)`
abbrev is_hex : ℕ → Bool
is_hex c = (leb b'a' c && leb c b'f') || (leb b'0' c && leb c b'9')

unfoldable pub is_hex_text : ℕ → String → Bool
unfolding all
is_hex_text n value = length (codes value) == n && all is_hex (codes value)

abbrev present_and : (String → Bool) → Option String → Bool
present_and p none = false
present_and p (some s) = p s

abbrev is_none : Option String → Bool
is_none none = true
is_none (some s) = false

abbrev not_positive : Option ℕ → Bool
not_positive none = false
not_positive (some n) = ltb n 1

-- `secret_safe_values`
abbrev secret_safe_values : ExecutionEnvelope → List String
secret_safe_values e =
    e.objective ∷ e.actor_id ∷ e.recovery_policy ∷ e.data_classification ∷ e.allowed_paths
    ++ (e.allowed_capabilities
        ++ (e.required_gates
            ++ (e.network_permissions ++ (e.tool_permissions ++ e.stop_conditions))))

abbrev bad_permission : String → Bool
bad_permission p = not (str_eq p "READ" || str_eq p "WRITE")

abbrev bad_entry : String × ℤ → Bool
bad_entry (key, value) = is_blank key || is_negative value

-- The checks of `__post_init__` after the paths, up to the provider rules.
unfoldable pub check_rules : (String → String) → ExecutionEnvelope → Result EnvelopeError (Unit {0})
unfolding is_empty any
check_rules scrub_secrets e =
    if any is_blank (e.allowed_capabilities ++ e.required_gates)
    then raise blank_capability_or_gate
    else if is_blank e.data_classification || is_empty e.stop_conditions
    then raise data_rules_missing
    else if any (λ v. not (str_eq (scrub_secrets v) v)) (secret_safe_values e)
    then raise secret_like_material
    else if any bad_permission e.filesystem_permissions
    then raise bad_filesystem_permission
    else ok tt

-- The provider rules and what follows them.
unfoldable pub check_providers : ExecutionEnvelope → Result EnvelopeError (Unit {0})
unfolding is_empty any is_hex_text
check_providers e =
    if not (is_empty e.allowed_providers) && is_empty e.allowed_provider_roles
    then raise provider_without_role
    else if not (is_empty e.allowed_provider_roles) && is_empty e.allowed_providers
    then raise role_without_provider
    else if contains "provider:codex" e.allowed_capabilities
        && not (contains "codex" e.allowed_providers)
    then raise codex_outside_providers
    else if not (is_empty e.allowed_providers)
        && (is_none e.baseline_fingerprint || is_none e.baseline_commit)
    then raise provider_without_baseline
    else if present_and (λ s. not (is_hex_text 64 s)) e.baseline_fingerprint
    then raise bad_fingerprint
    else if present_and (λ s. not (is_hex_text 40 s)) e.baseline_commit
    then raise bad_commit
    else if any (λ c. not (str_eq c.project_id e.project_id)) e.credential_references
    then raise foreign_credential
    else if any bad_entry e.resource_budget
    then raise bad_budget
    else if not_positive e.deadline_at
    then raise bad_deadline
    else ok tt

abbrev pub lift_path : {A : Type 0} → Result PathError A → Result EnvelopeError A
lift_path (ok a) = ok a
lift_path (raise x) = raise (bad_path x)

-- `ExecutionEnvelope.__post_init__`. The supervision level is one of four by its type.
unfoldable pub execution_envelope :
    (String → String) → ExecutionEnvelope → Result EnvelopeError ExecutionEnvelope
unfolding is_empty check_rules check_providers
execution_envelope scrub_secrets e =
    if is_blank e.envelope_id
      || is_blank e.project_id
      || is_blank e.objective
      || is_blank e.actor_id
    then raise identity_missing
    else if ltb e.version 1 || ltb e.baseline_revision 1 || ltb e.max_attempts 1
    then raise counters_not_positive
    else if is_empty e.allowed_paths || is_empty e.required_gates || is_blank e.recovery_policy
    then raise scope_missing
    else and_then (lift_path (normalize_all e.allowed_paths)) λ normalized_paths.
      if not (is_distinct normalized_paths)
      then raise duplicate_paths
      else and_then (check_rules scrub_secrets e) λ _. and_then (check_providers e) λ _. ok e

-- The loop of `authorizes_path` over the owners; a path is normalised when it is reached.
unfoldable pub any_owner : String → List String → Result PathError Bool
any_owner candidate [] = ok false
any_owner candidate (item ∷ items) =
    let rest = any_owner candidate items in
    and_then (safe_relative_path item) λ owner.
      if str_eq owner "." || str_eq candidate owner || has_prefix (owner <> "/") candidate
      then ok true
      else rest

-- `ExecutionEnvelope.authorizes_path`
unfoldable pub authorizes_path : ExecutionEnvelope → String → String → Result PathError Bool
unfolding any_owner
authorizes_path e path permission =
    if not (contains permission e.filesystem_permissions)
    then ok false
    else and_then (safe_relative_path path) λ candidate. any_owner candidate e.allowed_paths

-- `ExecutionEnvelope.credential`
unfoldable pub find_credential : String → List CredentialReference → Option CredentialReference
find_credential reference_id [] = none
find_credential reference_id (c ∷ cs) =
    if str_eq c.reference_id reference_id then some c else find_credential reference_id cs

unfoldable pub credential : ExecutionEnvelope → String → Option CredentialReference
credential e reference_id = find_credential reference_id e.credential_references
