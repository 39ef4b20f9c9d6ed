-- ===== src/Workflow/Contract.antt =====
-- The contracts of src/artifex/workflow/core.py: states, baselines, transitions and stages, with
-- the checks that their constructors make. Each raise of a `WorkflowError` has a constructor of
-- its own. Durations are whole microseconds.
use artifex_dev.Prelude.{
  ℕ, ltb, String, ◌≡◌, ◌↔◌, eq_iff, arith, Bool, true, false, not, ◌&&◌, ◌||◌, is_yes, List, [],
  ◌∷◌, if◌then◌else◌, Result, ok, raise, and_then, str_eq, is_stripped, is_distinct, is_empty,
}

pub data StageState : Type 0 where
  pending ready running claimed_complete validating accepted failed blocked cancelled : StageState

pub StageState-discrete : Discrete StageState
StageState-discrete = hlevel

-- `source == target`
unfoldable pub same_state : StageState → StageState → Bool
unfolding StageState-discrete
same_state s t = is_yes (StageState-discrete s t)

pub data ExecutionStatus : Type 0 where
  success fail blocked cancelled rebase_required : ExecutionStatus

pub data LivenessStatus : Type 0 where
  progress no_progress revisit_limit no_progress_limit stalled : LivenessStatus

-- The sites that raise a `WorkflowError`; `liveness_violation` is its subclass.
pub data WorkflowError : Type 0 where
  baseline_not_normalized no_state_change counters_not_positive stall_not_positive : WorkflowError
  no_stage_id no_validator duplicate_requires duplicate_produces : WorkflowError
  duplicate_transitions already_registered unknown_stage only_core not_permitted : WorkflowError
  prerequisites_missing outputs_missing not_chronological external_instructions : WorkflowError
  liveness_violation : LivenessStatus → WorkflowError

pub record ExecutionBaseline : Type 0 where
  pub base_commit : String
  pub contract_hash : String
  pub project_model_fingerprint : String

-- `not value or value.strip() != value`
abbrev not_normalized : String → Bool
not_normalized value = str_eq value "" || not (is_stripped value)

-- `ExecutionBaseline.__post_init__`: the loop over the three fields.
unfoldable pub execution_baseline : ExecutionBaseline → Result WorkflowError ExecutionBaseline
execution_baseline b =
    if not_normalized b.base_commit
      || not_normalized b.contract_hash
      || not_normalized b.project_model_fingerprint
    then raise baseline_not_normalized
    else ok b

-- `ExecutionBaseline.matches`: field by field.
unfoldable pub matches : ExecutionBaseline → ExecutionBaseline → Bool
matches a b =
    str_eq a.base_commit b.base_commit
    && str_eq a.contract_hash b.contract_hash
    && str_eq a.project_model_fingerprint b.project_model_fingerprint

unfoldable pub classify_execution_result :
    ExecutionBaseline → ExecutionBaseline → ExecutionStatus → ExecutionStatus
unfolding matches
classify_execution_result worker current claimed =
    if not (matches worker current) then rebase_required else claimed

pub record StageTransition : Type 0 where
  pub source : StageState
  pub target : StageState

-- `StageTransition.__post_init__`
unfoldable pub stage_transition : StageState → StageState → Result WorkflowError StageTransition
unfolding same_state
stage_transition s t =
    if same_state s t then raise no_state_change else ok (record { source = s; target = t })

unfoldable pub same_transition : StageTransition → StageTransition → Bool
unfolding same_state
same_transition a b = same_state a.source b.source && same_state a.target b.target

-- `t in transitions`
unfoldable pub has_transition : StageTransition → List StageTransition → Bool
unfolding same_transition
has_transition t [] = false
has_transition t (u ∷ us) = same_transition u t || has_transition t us

-- `len(set(transitions)) == len(transitions)`
unfoldable pub distinct_transitions : List StageTransition → Bool
unfolding has_transition
distinct_transitions [] = true
distinct_transitions (t ∷ ts) = not (has_transition t ts) && distinct_transitions ts

pub record LivenessPolicy : Type 0 where
  pub max_stage_visits : ℕ
  pub max_no_progress_observations : ℕ
  pub max_stall : ℕ

-- `LivenessPolicy.__post_init__`
unfoldable pub liveness_policy : LivenessPolicy → Result WorkflowError LivenessPolicy
liveness_policy p =
    if ltb p.max_stage_visits 1 || ltb p.max_no_progress_observations 1
    then raise counters_not_positive
    else if ltb p.max_stall 1
    then raise stall_not_positive
    else ok p

-- `LivenessPolicy()`
abbrev pub default_liveness : LivenessPolicy
default_liveness = record {
  max_stage_visits = 8;
  max_no_progress_observations = 3;
  max_stall = 900_000_000;
}

infix 40 ◌⇒◌
abbrev ◌⇒◌ : StageState → StageState → StageTransition
s ⇒ t = record { source = s; target = t }

-- `_STANDARD_TRANSITIONS`
abbrev pub standard_transitions : List StageTransition
standard_transitions =
    (pending ⇒ ready)
    ∷ (pending ⇒ StageState.blocked)
    ∷ (ready ⇒ running)
    ∷ (ready ⇒ StageState.blocked)
    ∷ (running ⇒ claimed_complete)
    ∷ (running ⇒ ready)
    ∷ (running ⇒ failed)
    ∷ (running ⇒ StageState.blocked)
    ∷ (claimed_complete ⇒ validating)
    ∷ (claimed_complete ⇒ running)
    ∷ (validating ⇒ accepted)
    ∷ (validating ⇒ running)
    ∷ (validating ⇒ failed)
    ∷ (StageState.blocked ⇒ ready)
    ∷ []

pub record StageContract : Type 0 where
  pub stage_id : String
  pub requires : List String
  pub produces : List String
  pub capabilities : List String
  pub validators : List String
  pub transitions : List StageTransition
  pub liveness : LivenessPolicy

-- `StageContract.__post_init__`
unfoldable pub stage_contract : StageContract → Result WorkflowError StageContract
unfolding is_empty
stage_contract c =
    if str_eq c.stage_id ""
    then raise no_stage_id
    else if is_empty c.validators
    then raise no_validator
    else if not (is_distinct c.requires)
    then raise duplicate_requires
    else if not (is_distinct c.produces)
    then raise duplicate_produces
    else if not (distinct_transitions c.transitions)
    then raise duplicate_transitions
    else ok c

-- `StageContract.permits`: it builds a `StageTransition`, which raises if the states are equal.
unfoldable pub permits : StageContract → StageState → StageState → Result WorkflowError Bool
unfolding stage_transition
permits c s t = and_then (stage_transition s t) λ u. ok (has_transition u c.transitions)

-- A result is classified as SUCCESS exactly if the worker claims SUCCESS and its baseline is the
-- current one.
pub classify-success :
    (worker current : ExecutionBaseline) (claimed : ExecutionStatus)
    → (classify_execution_result worker current claimed ≡ success)
      ↔ ((worker ≡ current) × (claimed ≡ success))
unfolding classify_execution_result
classify-success worker current claimed = (
  λ h. ground (
    arith,
    eq_iff worker.base_commit current.base_commit,
    eq_iff worker.contract_hash current.contract_hash,
    eq_iff worker.project_model_fingerprint current.project_model_fingerprint,
  ),
  λ h. ground (
    arith,
    eq_iff worker.base_commit current.base_commit,
    eq_iff worker.contract_hash current.contract_hash,
    eq_iff worker.project_model_fingerprint current.project_model_fingerprint,
  ),
)
