-- ===== src/Capabilities/Examples.antt =====
-- A resolution between two providers, and the resolver's theorems at it.
use artifex_dev.Prelude.{
  String, ◌≡◌, inl, inr, refl, true, none, some, [], ◌∷◌, Some, contains, is_subset, is_empty,
}
use artifex_dev.Capabilities.Models.{
  ProviderInstance, CapabilityRequest, CapabilityGraph, execution_implementer, available,
  standalone, internal, has_role, provider_id,
}
use artifex_dev.Capabilities.Resolver.{
  add_if, ineligibility_reasons, evaluations, candidates, precedes, insert_candidate,
  sort_candidates, resolve,
}
use artifex_dev.Capabilities.Resolver.Eligibility
use artifex_dev.Capabilities.Resolver.Eligibility.{IsEligible}

program : Unit {0}
unfolding contains is_subset is_empty has_role add_if ineligibility_reasons evaluations candidates
    precedes insert_candidate sort_candidates resolve
program = tt

abbrev instance_of : String → ProviderInstance
instance_of id = record {
  instance_id = id;
  configuration = record {
    provider_id = id;
    enabled = true;
    roles = execution_implementer ∷ [];
    governance_mode = standalone;
    command = id ∷ [];
    credential_reference = none;
  };
  readiness = record {
    provider_id = id;
    state = available;
    checks = [];
    executable = none;
    command = id ∷ [];
    version = none;
    detail = "";
    auth_probe_sha256 = none;
    executable_sha256 = none;
  };
  capabilities = "code" ∷ [];
  certified_roles = execution_implementer ∷ [];
}

abbrev two : CapabilityGraph
two = record { providers = instance_of "claude" ∷ instance_of "codex" ∷ []; source = "test" }

abbrev wanted : CapabilityRequest
wanted = record {
  project_id = "p";
  project_job_id = "j";
  role = execution_implementer;
  capabilities = "code" ∷ [];
  allowed_providers = "claude" ∷ "codex" ∷ [];
  envelope_capabilities = "code" ∷ [];
  actor = record {
    actor_id = "bot";
    actor_type = "AGENT";
    delegated_roles = execution_implementer ∷ [];
  };
  data_classification = internal;
  preferred_provider = some "codex";
  project_allowed_providers = [];
  project_allowed_roles = [];
}

chosen : (resolve two wanted).eligible ≡ true
unfolding program
chosen = refl

resolve_selects_example :
    Some
      (λ p.
        IsEligible p wanted
        × ((resolve two wanted).provider_id ≡ some (provider_id p))
        × ((resolve two wanted).instance_id ≡ some p.instance_id))
      two.providers
resolve_selects_example = Eligibility.resolve_selects two wanted chosen

resolve_prefers_example :
    ((resolve two wanted).eligible ≡ true) × ((resolve two wanted).provider_id ≡ some "codex")
unfolding program
resolve_prefers_example = Eligibility.resolve_prefers two wanted (inr (inl (refl, refl)))
