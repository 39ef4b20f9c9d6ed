-- ===== src/Workflow/Examples.antt =====
-- Runs of the workflow model, and the theorems at concrete inputs.
use artifex_dev.Prelude.{
  ℕ, String, ◌≡◌, ◌≢◌, refl, inl, none, some, List, [], ◌∷◌, ok, raise, lookup, put, ap, ◌≤◌, All,
  is_subset, contains, is_distinct,
}
use artifex_dev.Policy.{core, human}
use artifex_dev.Workflow.Contract.{
  StageContract, ExecutionBaseline, StageState, pending, ready, running, validating, accepted,
  standard_transitions, default_liveness, stage_contract, not_permitted, liveness_policy,
  distinct_transitions, has_transition, same_state, permits,
}
use artifex_dev.Workflow.Engine.{StageRuntime, register, transition, start, claim_complete}
use artifex_dev.Workflow.Engine.Refinement.{
  Call, register_call, transition_call, start_call, claim_call, call, stage_of, outcome, settle,
}
use artifex_dev.Workflow.Engine.Authority
use artifex_dev.Workflow.Engine.Authority.{Includes, run, state_of}
use artifex_dev.Workflow.Engine.Histories
use artifex_dev.Workflow.Engine.Histories.{◌⟶*◌}
use artifex_dev.Workflow.Engine.Refinement
use artifex_dev.Workflow.Liveness.Bounds
use artifex_dev.Workflow.Liveness.Bounds.{
  AllWithin, Sample, Carries, observe_sample, accepted_visits,
}
use artifex_dev.Workflow.Liveness.{observe, observe_again}

abbrev contract : StageContract
contract = record {
  stage_id = "build";
  requires = "spec" ∷ [];
  produces = "binary" ∷ [];
  capabilities = "compile" ∷ [];
  validators = "tests" ∷ [];
  transitions = standard_transitions;
  liveness = default_liveness;
}

abbrev baseline : ExecutionBaseline
baseline = record { base_commit = "c"; contract_hash = "h"; project_model_fingerprint = "p" }

-- A stage from its registration to its acceptance, with one refused attempt by a human.
abbrev story : List Call
story =
    register_call contract
    ∷ transition_call "build" ready none
    ∷ start_call "build" ("spec" ∷ []) ("compile" ∷ []) baseline
    ∷ claim_call "build" ("binary" ∷ [])
    ∷ transition_call "build" validating none
    ∷ transition_call "build" accepted (some human)
    ∷ transition_call "build" accepted (some core)
    ∷ []

program : Unit {0}
unfolding stage_contract distinct_transitions has_transition same_state permits register transition
    start claim_complete call run lookup put is_subset contains is_distinct observe observe_sample
    accepted_visits observe_again liveness_policy outcome
program = tt

contract_accepted : stage_contract contract ≡ ok contract
unfolding program
contract_accepted = refl

abbrev built : StageRuntime
built = record {
  contract = contract;
  state = accepted;
  baseline = some baseline;
  outputs = "binary" ∷ [];
}

story-run : run story [] ≡ ("build", built) ∷ []
unfolding program
story-run = refl

accepted_by_core_example : Includes (transition_call "build" accepted (some core)) story
unfolding program
accepted_by_core_example =
    Authority.accepted_by_core story [] "build" (λ p. cc) (ap (state_of "build") story-run)

history_follows_diagram_example :
    (contract.transitions ≡ standard_transitions)
    × (pending ⟶* accepted)
    × (accepted ≢ StageState.cancelled)
unfolding program
history_follows_diagram_example =
    Histories.history_follows_diagram story "build" built
      (refl, (tt, (tt, (tt, (tt, (tt, (tt, tt))))))) (ap (lookup "build") story-run)

-- A stage that was accepted cannot be started again.
final_stage_frozen_example :
    lookup "build" (call (transition_call "build" running none) (("build", built) ∷ [])).1
    ≡ some built
unfolding program
final_stage_frozen_example =
    Histories.final_stage_frozen (transition_call "build" running none) (("build", built) ∷ [])
      "build" built refl refl (inl refl)

call_refines_outcome_example :
    call (transition_call "build" running none) (("build", built) ∷ [])
    ≡ (raise not_permitted, ("build", built) ∷ [])
unfolding program
call_refines_outcome_example =
    Refinement.call_refines_outcome (transition_call "build" running none) (("build", built) ∷ [])

policy_valid : liveness_policy default_liveness ≡ ok default_liveness
unfolding program
policy_valid = refl

abbrev at : String → String → ℕ → Sample
at stage token time = record { stage = stage; token = token; time = time }

-- The fourth observation of "build" without progress is refused, and so is the fifth, which goes
-- back in time; "test" is seen in between.
abbrev samples : List Sample
samples =
    at "build" "a" 5
    ∷ at "test" "z" 6
    ∷ at "build" "a" 9
    ∷ at "build" "a" 12
    ∷ at "build" "a" 13
    ∷ at "test" "y" 14
    ∷ at "build" "a" 2
    ∷ []

three_accepted : accepted_visits default_liveness "build" samples [] ≡ 3
unfolding program
three_accepted = refl

visits_budget_example : accepted_visits default_liveness "build" samples [] ≤ 8
visits_budget_example = Bounds.visits_budget default_liveness "build" samples policy_valid

samples_carry : All (Carries "build" "a") samples
samples_carry =
    (λ _. refl, (λ e. cc, (λ _. refl, (λ _. refl, (λ _. refl, (λ e. cc, (λ _. refl, tt)))))))

no_progress_budget_example : accepted_visits default_liveness "build" samples [] ≤ 3
no_progress_budget_example =
    Bounds.no_progress_budget default_liveness "build" "a" samples [] policy_valid
      (Bounds.empty-AllWithin default_liveness) samples_carry

observe-AllWithin_example : AllWithin default_liveness (observe default_liveness "build" "a" 5 []).1
observe-AllWithin_example =
    Bounds.observe-AllWithin default_liveness "build" "a" 5 [] policy_valid
      (Bounds.empty-AllWithin default_liveness)
