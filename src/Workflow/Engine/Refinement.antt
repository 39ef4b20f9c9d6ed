-- ===== src/Workflow/Engine/Refinement.antt =====
-- The engine against a description of one stage alone: what a call returns depends on its own stage
-- only, and it writes either that stage, once, or nothing.
use artifex_dev.Prelude.{
  String, ◌≡◌, refl, str_eq, true, false, not, ◌&&◌, Option, none, some, List, Result, ok, raise,
  if◌then◌else◌, lookup, put, put-put, lookup-put, is_subset, arith, eq_refl,
}
use artifex_dev.Policy.{AcceptanceAuthority, core}
use artifex_dev.Workflow.Contract.{
  StageState, StageContract, ExecutionBaseline, WorkflowError, pending, running, claimed_complete,
  accepted, permits, same_state, already_registered, unknown_stage, only_core, not_permitted,
  prerequisites_missing, outputs_missing,
}
use artifex_dev.Workflow.Engine.{
  Engine, StageRuntime, Method, register, transition, start, claim_complete, is_core,
}

-- One call of a public method that writes.
pub data Call : Type 0 where
  register_call : StageContract → Call
  transition_call : String → StageState → Option AcceptanceAuthority → Call
  start_call : String → List String → List String → ExecutionBaseline → Call
  claim_call : String → List String → Call

unfoldable pub call : Call → Method StageRuntime
call (register_call c) = register c
call (transition_call id target authority) = transition id target authority
call (start_call id inputs capabilities baseline) = start id inputs capabilities baseline
call (claim_call id outputs) = claim_complete id outputs

abbrev pub stage_of : Call → String
stage_of (register_call c) = c.stage_id
stage_of (transition_call id _ _) = id
stage_of (start_call id _ _ _) = id
stage_of (claim_call id _) = id

unfoldable pub move : StageRuntime → StageState → Result WorkflowError StageRuntime
move r target = elim (permits r.contract r.state target) [
  | raise x ↦ raise x
  | ok false ↦ raise not_permitted
  | ok true ↦ ok (record r { state = target })
]

-- The new contents of the stage, or the error.
unfoldable pub outcome : Call → Option StageRuntime → Result WorkflowError StageRuntime
unfolding move
outcome (register_call c) none =
    ok (record { contract = c; state = pending; baseline = none; outputs = List.[] })
outcome (register_call c) (some r) = raise already_registered
outcome (transition_call id target authority) none = raise unknown_stage
outcome (transition_call id target authority) (some r) =
    if same_state target accepted && not (is_core authority) then raise only_core else move r target
outcome (start_call id inputs capabilities baseline) none = raise unknown_stage
outcome (start_call id inputs capabilities baseline) (some r) =
    if is_subset r.contract.requires inputs && is_subset r.contract.capabilities capabilities
    then move (record r { baseline = some baseline }) running
    else raise prerequisites_missing
outcome (claim_call id outputs) none = raise unknown_stage
outcome (claim_call id outputs) (some r) =
    if is_subset r.contract.produces outputs
    then move (record r { outputs = outputs }) claimed_complete
    else raise outputs_missing

abbrev pub settle :
    String → Result WorkflowError StageRuntime → Engine → Result WorkflowError StageRuntime × Engine
settle id (ok r) e = (ok r, put id r e)
settle id (raise x) e = (raise x, e)

transition_settles :
    (id : String) (t : StageState) (a : Option AcceptanceAuthority) (e : Engine)
    (o : Option StageRuntime)
    → lookup id e ≡ o
    → transition id t a e ≡ settle id (outcome (transition_call id t a) o) e
unfolding outcome transition
transition_settles id t a e none h = ground arith
transition_settles id t a e (some r) h = ground arith

register_settles :
    (c : StageContract) (e : Engine) (o : Option StageRuntime)
    → lookup c.stage_id e ≡ o
    → register c e ≡ settle c.stage_id (outcome (register_call c) o) e
unfolding outcome register
register_settles c e none h = ground arith
register_settles c e (some r) h = ground arith

claim_settles :
    (id : String) (outs : List String) (e : Engine) (o : Option StageRuntime)
    → lookup id e ≡ o
    → claim_complete id outs e ≡ settle id (outcome (claim_call id outs) o) e
unfolding outcome claim_complete permits
claim_settles id outs e none h = ground arith
claim_settles id outs e (some r) h =
    let claimed = record r { state = claimed_complete } in
    ground (arith, put-put id (record claimed { outputs = outs }) claimed e)

start_settles :
    (id : String) (inputs capabilities : List String) (b : ExecutionBaseline) (e : Engine)
    (o : Option StageRuntime)
    → lookup id e ≡ o
    → start id inputs capabilities b e
      ≡ settle id (outcome (start_call id inputs capabilities b) o) e
unfolding outcome start permits same_state
start_settles id inputs capabilities b e none h = ground arith
start_settles id inputs capabilities b e (some r) h =
    let begun = record r { state = running } in
    ground (arith, put-put id (record begun { baseline = some b }) begun e)

-- Each call is settled by its outcome at its own stage: it returns that outcome, writes the new
-- contents of that stage once if there are any, and changes nothing if it raises.
pub call_refines_outcome :
    (c : Call) (e : Engine) → call c e ≡ settle (stage_of c) (outcome c (lookup (stage_of c) e)) e
unfolding call
call_refines_outcome (register_call c) e = register_settles c e _ refl
call_refines_outcome (transition_call id t a) e = transition_settles id t a e _ refl
call_refines_outcome (start_call id inputs capabilities b) e =
    start_settles id inputs capabilities b e _ refl
call_refines_outcome (claim_call id outs) e = claim_settles id outs e _ refl

pub settle-other :
    (id j : String) (o : Result WorkflowError StageRuntime) (e : Engine)
    → str_eq id j ≡ false
    → lookup j (settle id o e).1 ≡ lookup j e
settle-other id j (ok r) e h = rw (lookup-put, h) refl
settle-other id j (raise x) e h = refl

pub settle_self :
    (id : String) (r : StageRuntime) (e : Engine) → lookup id (settle id (ok r) e).1 ≡ some r
settle_self id r e = rw (lookup-put, eq_refl) refl

pub outcome-accepted :
    (c : Call) (o : Option StageRuntime) (r : StageRuntime)
    → outcome c o ≡ ok r
    → r.state ≡ accepted
    → (id : String) × (c ≡ transition_call id accepted (some core))
      × (b : StageRuntime) × (o ≡ some b)
      × (permits b.contract b.state accepted ≡ ok true)
unfolding outcome is_core same_state
outcome-accepted (register_call c) none r h p = ground arith
outcome-accepted (register_call c) (some b) r h p = ground arith
outcome-accepted (transition_call id t a) none r h p = ground arith
outcome-accepted (transition_call id t a) (some b) r h p =
    (id, ground arith, b, ground arith, ground arith)
outcome-accepted (start_call id i k b) none r h p = ground arith
outcome-accepted (start_call id i k b) (some _) r h p = ground arith
outcome-accepted (claim_call id b) none r h p = ground arith
outcome-accepted (claim_call id b) (some _) r h p = ground arith
