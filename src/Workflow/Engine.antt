-- ===== src/Workflow/Engine.antt =====
-- `WorkflowEngine` of src/artifex/workflow/core.py. The state is the dictionary `_stages`; a method
-- is an action on it, and what it wrote before a raise stays written.
pub mod Refinement
pub mod Authority
pub mod Diagram
pub mod Histories
use artifex_dev.Prelude.{
  String, ◌≡◌, Bool, true, false, not, ◌&&◌, ◌||◌, Option, none, some, List, [], ◌∷◌, is_subset,
  Exec, lift, pure, fail, gets, require, raise_if, modify, ◌>>=◌, ◌>>◌, Dict, lookup, put,
}
use artifex_dev.Policy.{AcceptanceAuthority, can_transition_canonical_acceptance}
use artifex_dev.Workflow.Contract.{
  StageState, StageContract, ExecutionBaseline, WorkflowError, pending, running, claimed_complete,
  accepted, already_registered, unknown_stage, only_core, not_permitted, prerequisites_missing,
  outputs_missing, same_state, permits,
}

pub record StageRuntime : Type 0 where
  pub contract : StageContract
  pub state : StageState
  pub baseline : Option ExecutionBaseline
  pub outputs : List String

abbrev pub Engine : Type 0
Engine = Dict StageRuntime

abbrev pub Method : Type 0 → Type 0
Method = Exec WorkflowError Engine

-- `self._stages[stage_id] = runtime; return runtime`
unfoldable pub store : String → StageRuntime → Method StageRuntime
unfolding ◌>>=◌
store stage_id runtime = do modify (put stage_id runtime); pure runtime

-- `stage_id in self._stages`
abbrev pub is_registered : String → Engine → Bool
is_registered stage_id e = elim (lookup stage_id e) [ none ↦ false | some _ ↦ true ]

unfoldable pub register : StageContract → Method StageRuntime
unfolding store
register contract = do
  known ← gets (is_registered contract.stage_id)
  raise_if already_registered known
  store contract.stage_id
      (record { contract = contract; state = pending; baseline = none; outputs = [] })

unfoldable pub get : String → Method StageRuntime
unfolding ◌>>=◌
get stage_id = do found ← gets (lookup stage_id); require unknown_stage found

-- `authority is not AcceptanceAuthority.CORE`
unfoldable pub is_core : Option AcceptanceAuthority → Bool
unfolding can_transition_canonical_acceptance
is_core none = false
is_core (some a) = can_transition_canonical_acceptance a

unfoldable pub transition : String → StageState → Option AcceptanceAuthority → Method StageRuntime
unfolding get is_core store
transition stage_id target authority = do
  runtime ← get stage_id
  raise_if only_core (same_state target accepted && not (is_core authority))
  permitted ← lift (permits runtime.contract runtime.state target)
  raise_if not_permitted (not permitted)
  store stage_id (record runtime { state = target })

unfoldable pub start : String → List String → List String → ExecutionBaseline → Method StageRuntime
unfolding transition store
start stage_id available_inputs available_capabilities baseline = do
  runtime ← get stage_id
  raise_if prerequisites_missing (
      not (is_subset runtime.contract.requires available_inputs)
      || not (is_subset runtime.contract.capabilities available_capabilities))
  runtime' ← transition stage_id running none
  store stage_id (record runtime' { baseline = some baseline })

unfoldable pub claim_complete : String → List String → Method StageRuntime
unfolding transition store
claim_complete stage_id outputs = do
  runtime ← get stage_id
  raise_if outputs_missing (not (is_subset runtime.contract.produces outputs))
  claimed ← transition stage_id claimed_complete none
  store stage_id (record claimed { outputs = outputs })
