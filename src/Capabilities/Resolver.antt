-- ===== src/Capabilities/Resolver.antt =====
-- src/artifex/capabilities/resolver.py.
pub mod Eligibility
use Prim.Native.Nat.{Ordering}
use Prim.Native.String.{compare}
use artifex_dev.Prelude.{
  String, Bool, true, false, not, ◌&&◌, ◌||◌, Option, none, some, List, [], ◌∷◌, ◌++◌,
  if◌then◌else◌, contains, is_subset, is_empty, str_eq,
}
use artifex_dev.Capabilities.Models.{
  ProviderRole, GovernanceMode, DataClassification, atlas_governed, restricted, has_role,
  ProviderInstance, provider_id, globally_available, CapabilityRequest, CapabilityGraph,
}

pub record Evaluation : Type 0 where
  pub provider_id : String
  pub eligible : Bool
  pub reasons : List String

pub record EligibilityDecision : Type 0 where
  pub eligible : Bool
  pub provider_id : Option String
  pub instance_id : Option String
  pub reasons : List String
  pub evaluated : List Evaluation

abbrev pub is_atlas : GovernanceMode → Bool
is_atlas atlas_governed = true
is_atlas _ = false

abbrev pub is_restricted : DataClassification → Bool
is_restricted restricted = true
is_restricted _ = false

abbrev pub no_roles : List ProviderRole → Bool
no_roles [] = true
no_roles (r ∷ rs) = false

-- `if test: reasons.append(reason)`, before the reasons that follow.
unfoldable pub add_if : Bool → String → List String → List String
add_if true reason rest = reason ∷ rest
add_if false reason rest = rest

-- `a and x not in a`
abbrev pub outside : String → List String → Bool
outside x allowed = not (is_empty allowed) && not (contains x allowed)

unfoldable pub ineligibility_reasons : ProviderInstance → CapabilityRequest → List String
ineligibility_reasons p r = add_if (not (globally_available p)) "NOT_GLOBALLY_AVAILABLE" (
    add_if (not (has_role r.role p.configuration.roles)) "ROLE_NOT_CONFIGURED" (
      add_if (not (has_role r.role p.certified_roles)) "ROLE_NOT_CERTIFIED" (
        add_if (not (has_role r.role r.actor.delegated_roles)) "ACTOR_ROLE_NOT_DELEGATED" (
          add_if (not (is_subset r.capabilities p.capabilities)) "CAPABILITIES_NOT_PROVIDED" (
            add_if (not (is_subset r.capabilities r.envelope_capabilities))
              "CAPABILITIES_NOT_AUTHORIZED_BY_ENVELOPE"
              (add_if (outside (provider_id p) r.allowed_providers)
                "PROVIDER_NOT_AUTHORIZED_BY_ENVELOPE"
                (add_if (outside (provider_id p) r.project_allowed_providers)
                  "PROVIDER_NOT_AUTHORIZED_BY_PROJECT"
                  (add_if
                    (not (no_roles r.project_allowed_roles)
                      && not (has_role r.role r.project_allowed_roles))
                    "ROLE_NOT_AUTHORIZED_BY_PROJECT"
                    (add_if
                      (is_atlas p.configuration.governance_mode
                        && not (str_eq (provider_id p) "atlas"))
                      "ATLAS_GOVERNANCE_BOUNDARY_INVALID"
                      (add_if
                        (is_restricted r.data_classification
                          && not (is_atlas p.configuration.governance_mode))
                        "DATA_CLASSIFICATION_INELIGIBLE" []))))))))))

-- The first list of the loop.
unfoldable pub evaluations : List ProviderInstance → CapabilityRequest → List Evaluation
evaluations [] r = []
evaluations (p ∷ ps) r =
    record {
      provider_id = provider_id p;
      eligible = is_empty (ineligibility_reasons p r);
      reasons = ineligibility_reasons p r;
    }
    ∷ evaluations ps r

-- The second list of the loop.
unfoldable pub candidates : List ProviderInstance → CapabilityRequest → List ProviderInstance
candidates [] r = []
candidates (p ∷ ps) r =
    let rest = candidates ps r in if is_empty (ineligibility_reasons p r) then p ∷ rest else rest

abbrev pub is_preferred : ProviderInstance → Option String → Bool
is_preferred p none = false
is_preferred p (some id) = str_eq (provider_id p) id

abbrev by_name : Ordering → Ordering → Bool
by_name Ordering.lt later = true
by_name Ordering.gt later = false
by_name Ordering.eq Ordering.lt = true
by_name Ordering.eq _ = false

-- The order of the keys of `candidates.sort`.
unfoldable pub precedes : Option String → ProviderInstance → ProviderInstance → Bool
precedes preferred p q =
    (is_preferred p preferred && not (is_preferred q preferred))
    || (not (not (is_preferred p preferred) && is_preferred q preferred)
        && by_name (compare (provider_id p) (provider_id q)) (compare p.instance_id q.instance_id))

unfoldable pub insert_candidate :
    Option String → ProviderInstance → List ProviderInstance → List ProviderInstance
insert_candidate preferred p [] = p ∷ []
insert_candidate preferred p (q ∷ qs) =
    if precedes preferred q p then q ∷ insert_candidate preferred p qs else p ∷ q ∷ qs

-- `list.sort`, which is stable.
unfoldable pub sort_candidates : Option String → List ProviderInstance → List ProviderInstance
sort_candidates preferred [] = []
sort_candidates preferred (p ∷ ps) = insert_candidate preferred p (sort_candidates preferred ps)

-- The end of `resolve`, with the sorted candidates.
abbrev pub decision : List ProviderInstance → List Evaluation → EligibilityDecision
decision [] evaluated = record {
  eligible = false;
  provider_id = none;
  instance_id = none;
  reasons = "NO_CONTEXTUALLY_ELIGIBLE_PROVIDER" ∷ [];
  evaluated = evaluated;
}
decision (selected ∷ _) evaluated = record {
  eligible = true;
  provider_id = some (provider_id selected);
  instance_id = some selected.instance_id;
  reasons = "AVAILABLE_FOR_CONTEXT" ∷ [];
  evaluated = evaluated;
}

-- `CapabilityResolver.resolve`
unfoldable pub resolve : CapabilityGraph → CapabilityRequest → EligibilityDecision
resolve g r =
    decision (sort_candidates r.preferred_provider (candidates g.providers r))
      (evaluations g.providers r)
