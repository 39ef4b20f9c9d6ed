-- ===== src/Workflow/Liveness.antt =====
-- `LivenessGuard` of src/artifex/workflow/core.py. Times are whole microseconds.
pub mod Bounds
use artifex_dev.Prelude.{
  ℕ, ◌+◌, ◌-◌, ltb, leb, String, ◌≡◌, not, str_eq, Option, none, some, if◌then◌else◌, Exec, pure,
  fail, gets, raise_if, modify, ◌>>=◌, ◌>>◌, Dict, lookup, put, Result, ok, raise,
}
use artifex_dev.Policy.{InstructionTrust, can_supply_instructions}
use artifex_dev.Workflow.Contract.{
  LivenessPolicy, LivenessStatus, WorkflowError, progress, no_progress, revisit_limit, stalled,
  no_progress_limit, not_chronological, liveness_violation, external_instructions,
}

pub record LivenessReport : Type 0 where
  pub status : LivenessStatus
  pub stage_id : String
  pub visits : ℕ
  pub no_progress_observations : ℕ

-- `_Observation`
pub record Observation : Type 0 where
  pub token : String
  pub visits : ℕ
  pub no_progress : ℕ
  pub last_progress_at : ℕ
  pub last_observed_at : ℕ

-- The state of a guard is `_observations`; its policy is fixed.
abbrev pub Guard : Type 0 → Type 0
Guard = Exec WorkflowError (Dict Observation)

module _ (policy : LivenessPolicy) where
  -- The part of `observe` for a stage that was seen before: the new entry and the report's status.
  unfoldable pub observe_again :
      Observation → String → ℕ → Result WorkflowError (Observation × LivenessStatus)
  observe_again previous progress_token at =
      let visits = previous.visits + 1 in
      let no_progress' = previous.no_progress + 1 in
      let elapsed = at - previous.last_progress_at in
      if ltb at previous.last_observed_at
      then raise not_chronological
      else if ltb policy.max_stage_visits visits
      then raise (liveness_violation revisit_limit)
      else if not (str_eq progress_token previous.token)
      then ok (
        record {
          token = progress_token;
          visits = visits;
          no_progress = 0;
          last_progress_at = at;
          last_observed_at = at;
        },
        progress,
      )
      else if leb policy.max_stall elapsed
      then raise (liveness_violation stalled)
      else if leb policy.max_no_progress_observations no_progress'
      then raise (liveness_violation no_progress_limit)
      else ok (
        record {
          token = progress_token;
          visits = visits;
          no_progress = no_progress';
          last_progress_at = previous.last_progress_at;
          last_observed_at = at;
        },
        no_progress,
      )

  abbrev pub first_observation : String → ℕ → Observation
  first_observation progress_token at = record {
    token = progress_token;
    visits = 1;
    no_progress = 0;
    last_progress_at = at;
    last_observed_at = at;
  }

  -- What `observe` does with the entry that `_observations.get(stage_id)` found.
  abbrev pub observed :
      Option Observation → String → ℕ → Result WorkflowError (Observation × LivenessStatus)
  observed none progress_token at = ok (first_observation progress_token at, progress)
  observed (some previous) progress_token at = observe_again previous progress_token at

  abbrev pub report : String → Observation → LivenessStatus → LivenessReport
  report stage_id o status = record {
    status = status;
    stage_id = stage_id;
    visits = o.visits;
    no_progress_observations = o.no_progress;
  }

  unfoldable pub observe : String → String → ℕ → Guard LivenessReport
  unfolding observe_again ◌>>=◌
  observe stage_id progress_token at = do
    previous ← gets (lookup stage_id)
    (o, status) ← λ d. (observed previous progress_token at, d)
    modify (put stage_id o)
    pure (report stage_id o status)

unfoldable pub require_instruction_authority : InstructionTrust → Result WorkflowError (Unit {0})
require_instruction_authority trust =
    if not (can_supply_instructions trust) then raise external_instructions else ok tt
