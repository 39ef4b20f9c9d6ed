-- ===== src/Workflow/Engine/Diagram.antt =====
-- The state diagram of a stage with the standard transitions.
use artifex_dev.Prelude.{◌≡◌, true, some, ok, arith}
use artifex_dev.Workflow.Contract.{
  StageState, StageContract, pending, ready, running, claimed_complete, validating, accepted,
  failed, blocked, standard_transitions, permits, has_transition,
}
use artifex_dev.Workflow.Engine.{StageRuntime}
use artifex_dev.Workflow.Engine.Refinement.{
  Call, outcome, register_call, transition_call, start_call, claim_call,
}

infix 40 ◌⟶◌
pub data ◌⟶◌ : StageState → StageState → Type 0 where
  prepare : pending ⟶ ready
  hold : pending ⟶ blocked
  begin : ready ⟶ running
  block : ready ⟶ blocked
  claim : running ⟶ claimed_complete
  pause : running ⟶ ready
  fail : running ⟶ failed
  interrupt : running ⟶ blocked
  validate : claimed_complete ⟶ validating
  resume : claimed_complete ⟶ running
  accept : validating ⟶ accepted
  rework : validating ⟶ running
  refuse : validating ⟶ failed
  unblock : blocked ⟶ ready

listed-edge :
    (s t : StageState)
    → has_transition (record { source = s; target = t }) standard_transitions ≡ true
    → s ⟶ t
unfolding has_transition
listed-edge pending ready h = prepare
listed-edge pending blocked h = hold
listed-edge ready running h = begin
listed-edge ready blocked h = block
listed-edge running claimed_complete h = claim
listed-edge running ready h = pause
listed-edge running failed h = fail
listed-edge running blocked h = interrupt
listed-edge claimed_complete validating h = validate
listed-edge claimed_complete running h = resume
listed-edge validating accepted h = accept
listed-edge validating running h = rework
listed-edge validating failed h = refuse
listed-edge blocked ready h = unblock
listed-edge _ _ h = cc

permitted-edge :
    (c : StageContract) (s t : StageState)
    → c.transitions ≡ standard_transitions
    → permits c s t ≡ ok true
    → s ⟶ t
unfolding permits
permitted-edge c s t h p = listed-edge s t (ground arith)

-- A call that changes a stage with the standard transitions keeps its contract and takes an edge.
pub outcome-edge :
    (c : Call) (b r : StageRuntime)
    → b.contract.transitions ≡ standard_transitions
    → outcome c (some b) ≡ ok r
    → (r.contract ≡ b.contract) × (b.state ⟶ r.state)
unfolding outcome
outcome-edge (register_call c) b r h p = cc
outcome-edge (transition_call id t a) b r h p =
    (ground arith, permitted-edge b.contract b.state r.state h (ground arith))
outcome-edge (start_call id inputs capabilities baseline) b r h p =
    (ground arith, permitted-edge b.contract b.state r.state h (ground arith))
outcome-edge (claim_call id outs) b r h p =
    (ground arith, permitted-edge b.contract b.state r.state h (ground arith))
