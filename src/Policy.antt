-- ===== src/Policy.antt =====
-- src/artifex/policy.py: trust of instructions, acceptance authorities, and the privilege ceiling.
-- `scrub_secrets` substitutes by regular expressions; it is a parameter where it is used.
use artifex_dev.Prelude.{String, Bool, true, false, List, is_subset}

pub data InstructionTrust : Type 0 where
  accepted_authority user implementation external_data : InstructionTrust

pub data AcceptanceAuthority : Type 0 where
  core independent_validator architect human : AcceptanceAuthority

-- `authority is AcceptanceAuthority.CORE`
unfoldable pub can_transition_canonical_acceptance : AcceptanceAuthority → Bool
can_transition_canonical_acceptance core = true
can_transition_canonical_acceptance _ = false

-- `trust is not InstructionTrust.EXTERNAL_DATA`
unfoldable pub can_supply_instructions : InstructionTrust → Bool
can_supply_instructions external_data = false
can_supply_instructions _ = true

pub record PrivilegePolicy : Type 0 where
  pub allowed : List String

unfoldable pub permits_overlay : PrivilegePolicy → List String → Bool
permits_overlay p requested = is_subset requested p.allowed
