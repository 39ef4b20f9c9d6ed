-- ===== src/Runtime/Examples.antt =====
-- Runs of the runtime's model, and the theorems at concrete inputs.
use artifex_dev.Prelude.{
  String, ◌≡◌, ◌↔◌, ◌⊎◌, refl, true, false, none, some, [], ◌∷◌, All, ok, raise, strip, lstrip,
  rstrip, is_space, is_blank, folds_to, casefold, fold_char, replace_char, has_char, split_at,
  has_prefix, join, contains, is_distinct, any, all, is_empty,
}
use artifex_dev.Runtime.Actor.{
  ActorPrincipal, DelegationGrant, agent, actor_principal, require_action, delegation_grant, actor,
  grant_permits, is_anonymous, lacks_authority,
}
use artifex_dev.Runtime.Actor.Authority
use artifex_dev.Runtime.Actor.Authority.{Lists, Delegated}
use artifex_dev.Runtime.Path.{
  safe_relative_path, posix_parts, keep_names, as_posix, candidate_of, path_escapes, path_empty,
}
use artifex_dev.Runtime.Path.Containment.{IsName, Under}
use artifex_dev.Runtime.Envelope.{
  ExecutionEnvelope, SupervisionLevel, Materiality, execution_envelope, authorizes_path,
  normalize_all,
}
use artifex_dev.Runtime.Envelope.Scope
use artifex_dev.Runtime.Envelope.Scope.{names_of}

program : Unit {0}
unfolding strip lstrip rstrip is_space is_blank folds_to casefold fold_char replace_char has_char
    split_at has_prefix join contains is_distinct any all is_empty actor_principal require_action
    delegation_grant actor grant_permits safe_relative_path posix_parts keep_names is_anonymous
    as_posix candidate_of execution_envelope authorizes_path normalize_all
program = tt

paths :
    (safe_relative_path " src\\./a//b/ " ≡ ok "src/a/b")
    × (safe_relative_path "./" ≡ ok ".")
    × (safe_relative_path "a/../b" ≡ raise path_escapes)
    × (safe_relative_path "/etc" ≡ raise path_escapes)
    × (safe_relative_path "C:/x" ≡ raise path_escapes)
    × (safe_relative_path "  " ≡ raise path_empty)
unfolding program
paths = (refl, refl, refl, refl, refl, refl)

-- A normalised path need not be its own normal form.
not_idempotent : (safe_relative_path "./ a" ≡ ok " a") × (safe_relative_path " a" ≡ ok "a")
unfolding program
not_idempotent = (refl, refl)

abbrev pub envelope : ExecutionEnvelope
envelope = record {
  envelope_id = "env-1";
  version = 1;
  project_id = "p";
  objective = "build";
  baseline_revision = 3;
  actor_id = "alice";
  allowed_paths = "src" ∷ "docs/api" ∷ [];
  allowed_capabilities = "code" ∷ [];
  required_gates = "tests" ∷ [];
  max_attempts = 2;
  recovery_policy = "stop";
  stop_on_unknown = true;
  approved = true;
  supervision_level = SupervisionLevel.l2;
  materiality = Materiality.tactical;
  allowed_workstreams = [];
  allowed_providers = [];
  allowed_provider_roles = [];
  filesystem_permissions = "READ" ∷ "WRITE" ∷ [];
  network_permissions = [];
  tool_permissions = [];
  data_classification = "INTERNAL";
  credential_references = [];
  resource_budget = [];
  deadline_at = none;
  stop_conditions = "MAX_ATTEMPTS" ∷ [];
  require_durable_evidence = true;
  baseline_fingerprint = none;
  baseline_commit = none;
}

envelope_valid : execution_envelope (λ s. s) envelope ≡ ok envelope
unfolding program
envelope_valid = refl

inside :
    (authorizes_path envelope "docs/api/x.md" "WRITE" ≡ ok true)
    × (authorizes_path envelope "docs/apis" "WRITE" ≡ ok false)
unfolding program
inside = (refl, refl)

authorizes-Under_example :
    (contains "WRITE" envelope.filesystem_permissions ≡ true)
    × All IsName (names_of "docs/api/x.md")
    × ((item : String) × (contains item envelope.allowed_paths ≡ true)
        × All IsName (names_of item)
        × Under (names_of item) (names_of "docs/api/x.md"))
authorizes-Under_example = Scope.authorizes-Under envelope "docs/api/x.md" "WRITE" inside.0

abbrev grant : DelegationGrant
grant = record {
  grant_id = "g";
  delegator_id = "alice";
  delegate_id = "bot";
  project_id = "p";
  allowed_actions = "runtime:dispatch" ∷ [];
  issued_at = 10;
  expires_at = some 20;
}

abbrev bot : ActorPrincipal
bot = record {
  actor_id = "bot";
  actor_type = agent;
  authenticated = true;
  authentication_method = "token";
  direct_permissions = [];
  delegation = some grant;
}

delegated :
    (require_action bot "runtime:dispatch" "p" 19 ≡ ok tt)
    × (require_action bot "runtime:dispatch" "p" 20 ≡ raise lacks_authority)
unfolding program
delegated = (refl, refl)

require_iff_example : (require_action bot "runtime:dispatch" "p" 19 ≡ ok tt) ↔ (
    (true ≡ true)
    × (folds_to "bot" "anonymous" ≡ false)
    × (Lists [] "runtime:dispatch"
        ⊎ ((g : DelegationGrant) × Delegated bot g "runtime:dispatch" "p" 19)))
require_iff_example = Authority.require_iff bot "runtime:dispatch" "p" 19
