-- ===== src/Validation/Gates.antt =====
-- Waivers and the hierarchical gates of src/artifex/validation/core.py. What `datetime` does with a
-- timestamp is a parameter.
pub mod Requirements
pub mod Approval
pub mod Levels
use artifex_dev.Prelude.{
  ℕ, zero, suc, ◌+◌, ltb, ◌==◌, String, Bool, true, false, not, ◌&&◌, ◌||◌, Option, none, some,
  List, [], ◌∷◌, if◌then◌else◌, Result, ok, raise, and_then, str_eq, has_prefix, Dict, lookup, put,
  contains, is_empty, is_distinct,
}
use artifex_dev.Policy.{AcceptanceAuthority, core, architect, human, independent_validator}
use artifex_dev.Validation.Errors.{
  ValidationError, bad_waiver_request, self_approval, waiver_authority, waiver_without_end,
  naive_timestamp, bad_requirement, minimum_not_positive, bad_gate, task_with_children,
  gate_without_policy, duplicate_gates, unknown_child, level_skipped, not_core, unknown_gate,
  not_waivable, recursion_limit,
}
use artifex_dev.Validation.Entry.{
  ValidatorKind, deterministic, structured_inspection, independent_agent, manual, EvidenceOutcome,
  EvidenceBinding, EvidenceEntry,
}
use artifex_dev.Validation.Entry
use artifex_dev.Validation.Ledger.{EvidenceLedger, EvidenceState}
use artifex_dev.Validation.Ledger

pub record WaiverRequest : Type 0 where
  pub waiver_id : String
  pub gate_id : String
  pub reason : String
  pub impact : String
  pub requested_by : String

-- `WaiverRequest.__post_init__`
unfoldable pub waiver_request : WaiverRequest → Result ValidationError WaiverRequest
waiver_request w =
    if not (has_prefix "WAV-" w.waiver_id)
      || str_eq w.gate_id ""
      || str_eq w.reason ""
      || str_eq w.impact ""
      || str_eq w.requested_by ""
    then raise bad_waiver_request
    else ok w

pub record ApprovedWaiver : Type 0 where
  pub request : WaiverRequest
  pub open request use *
  pub approved_by : String
  pub authority : AcceptanceAuthority
  pub expires_at : Option String
  pub revisit_condition : Option String

abbrev may_waive : AcceptanceAuthority → Bool
may_waive architect = true
may_waive human = true
may_waive _ = false

-- `expires_at is None and not revisit_condition`
abbrev is_endless : Option String → Option String → Bool
is_endless (some t) revisit = false
is_endless none none = true
is_endless none (some r) = str_eq r ""

pub data GateLevel : Type 0 where
  task integration milestone release : GateLevel

pub data GateState : Type 0 where
  pending pass fail blocked waived stale : GateState

pub record EvidenceRequirement : Type 0 where
  pub claim : String
  pub allowed_validator_ids : List String
  pub allowed_kinds : List ValidatorKind
  pub require_independent : Bool
  pub minimum_passes : ℕ

-- `EvidenceRequirement.__post_init__`
unfoldable pub evidence_requirement :
    EvidenceRequirement → Result ValidationError EvidenceRequirement
unfolding is_empty
evidence_requirement r =
    if str_eq r.claim "" || is_empty r.allowed_validator_ids || is_empty r.allowed_kinds
    then raise bad_requirement
    else if ltb r.minimum_passes 1
    then raise minimum_not_positive
    else ok r

pub record GateDefinition : Type 0 where
  pub gate_id : String
  pub level : GateLevel
  pub evidence : List EvidenceRequirement
  pub children : List String
  pub waiver_allowed : Bool

abbrev is_task : GateLevel → Bool
is_task task = true
is_task _ = false

-- `GateDefinition.__post_init__`
unfoldable pub gate_definition : GateDefinition → Result ValidationError GateDefinition
unfolding is_empty
gate_definition g =
    if str_eq g.gate_id "" || not (is_distinct g.children)
    then raise bad_gate
    else if is_task g.level && not (is_empty g.children)
    then raise task_with_children
    else if is_empty g.evidence
    then raise gate_without_policy
    else ok g

-- `_LEVEL_RANK`
abbrev pub level_rank : GateLevel → ℕ
level_rank task = 0
level_rank integration = 1
level_rank milestone = 2
level_rank release = 3

unfoldable pub gate_ids : List GateDefinition → List String
gate_ids [] = []
gate_ids (g ∷ gs) = g.gate_id ∷ gate_ids gs

-- `_gates`, in which the ids are unique.
unfoldable pub find_gate : String → List GateDefinition → Option GateDefinition
find_gate id [] = none
find_gate id (g ∷ gs) = if str_eq g.gate_id id then some g else find_gate id gs

abbrev check_child : GateLevel → Option GateDefinition → Result ValidationError (Unit {0})
check_child level none = raise unknown_child
check_child level (some child) =
    if level_rank level == level_rank child.level + 1 then ok tt else raise level_skipped

unfoldable pub check_children :
    List GateDefinition → GateLevel → List String → Result ValidationError (Unit {0})
check_children gates level [] = ok tt
check_children gates level (c ∷ cs) =
    and_then (check_child level (find_gate c gates)) λ _. check_children gates level cs

unfoldable pub check_gates :
    List GateDefinition → List GateDefinition → Result ValidationError (Unit {0})
check_gates gates [] = ok tt
check_gates gates (g ∷ gs) =
    and_then (check_children gates g.level g.children) λ _. check_gates gates gs

-- `GateGraph.__init__`; the graph is the list of its gates.
unfoldable pub gate_graph : List GateDefinition → Result ValidationError (List GateDefinition)
gate_graph gates =
    if is_distinct (gate_ids gates)
    then (and_then (check_gates gates gates) λ _. ok gates)
    else raise duplicate_gates

abbrev same_kind : ValidatorKind → ValidatorKind → Bool
same_kind deterministic deterministic = true
same_kind structured_inspection structured_inspection = true
same_kind independent_agent independent_agent = true
same_kind manual manual = true
same_kind _ _ = false

unfoldable pub has_kind : ValidatorKind → List ValidatorKind → Bool
has_kind k [] = false
has_kind k (j ∷ js) = same_kind j k || has_kind k js

-- The filter of `candidates`.
unfoldable pub is_candidate : EvidenceRequirement → EvidenceEntry → Bool
unfolding has_kind
is_candidate r e =
    str_eq e.claim r.claim
    && contains e.validator_id r.allowed_validator_ids
    && has_kind e.validator_kind r.allowed_kinds
    && (not r.require_independent || e.independent_of_executor)

unfoldable pub filter : (EvidenceEntry → Bool) → List EvidenceEntry → List EvidenceEntry
filter p [] = []
filter p (e ∷ es) = let rest = filter p es in if p e then e ∷ rest else rest

abbrev pub is_fail : EvidenceOutcome → Bool
is_fail Entry.failed = true
is_fail _ = false

abbrev pub is_blocked : EvidenceOutcome → Bool
is_blocked Entry.blocked = true
is_blocked _ = false

abbrev pub is_pass : EvidenceOutcome → Bool
is_pass Entry.passed = true
is_pass _ = false

unfoldable pub has_outcome : (EvidenceOutcome → Bool) → List EvidenceEntry → Bool
has_outcome p [] = false
has_outcome p (e ∷ es) = p e.outcome || has_outcome p es

-- `sum(entry.outcome is PASS for entry in current)`
unfoldable pub count_passes : List EvidenceEntry → ℕ
count_passes [] = 0
count_passes (e ∷ es) = if is_pass e.outcome then suc (count_passes es) else count_passes es

abbrev is_current_state : EvidenceState → Bool
is_current_state Ledger.current = true
is_current_state _ = false

abbrev pub is_current : EvidenceLedger → EvidenceBinding → EvidenceEntry → Bool
is_current ledger binding e = is_current_state (Ledger.state ledger e binding)

-- `_evaluate_requirement`
unfoldable pub evaluate_requirement :
    EvidenceRequirement → EvidenceLedger → EvidenceBinding → GateState
evaluate_requirement r ledger binding =
    let candidates = filter (is_candidate r) ledger.entries in
    let currents = filter (is_current ledger binding) candidates in
    if has_outcome is_fail currents
    then fail
    else if has_outcome is_blocked currents
    then blocked
    else if not (ltb (count_passes currents) r.minimum_passes)
    then pass
    else if is_empty candidates
    then pending
    else stale

abbrev pub same_gate_state : GateState → GateState → Bool
same_gate_state pending pending = true
same_gate_state pass pass = true
same_gate_state fail fail = true
same_gate_state blocked blocked = true
same_gate_state waived waived = true
same_gate_state stale stale = true
same_gate_state _ _ = false

unfoldable pub has_state : GateState → List GateState → Bool
has_state s [] = false
has_state s (t ∷ ts) = same_gate_state t s || has_state s ts

-- The loop over FAIL, BLOCKED, STALE and PENDING; `none` if no state is one of them.
unfoldable pub worst : List GateState → Option GateState
unfolding has_state
worst states =
    if has_state fail states
    then some fail
    else if has_state blocked states
    then some blocked
    else if has_state stale states
    then some stale
    else if has_state pending states
    then some pending
    else none

unfoldable pub requirement_states :
    List EvidenceRequirement → EvidenceLedger → EvidenceBinding → List GateState
requirement_states [] ledger binding = []
requirement_states (r ∷ rs) ledger binding =
    evaluate_requirement r ledger binding ∷ requirement_states rs ledger binding

abbrev or_state : Option GateState → GateState → GateState
or_state none s = s
or_state (some t) s = t

-- The state of a gate that is not waived, from those of its children.
unfoldable pub own_state :
    GateDefinition → EvidenceLedger → EvidenceBinding → List GateState → GateState
own_state g ledger binding child_states =
    or_state (worst child_states)
      (or_state (worst (requirement_states g.evidence ledger binding)) pass)

unfoldable pub each :
    (String → Result ValidationError GateState)
    → List String
    → Result ValidationError (List GateState)
each f [] = ok []
each f (c ∷ cs) = and_then (f c) λ s. and_then (each f cs) λ ss. ok (s ∷ ss)

unfoldable pub waives : String → List ApprovedWaiver → Bool
waives gate_id [] = false
waives gate_id (w ∷ ws) = str_eq w.gate_id gate_id || waives gate_id ws

abbrev is_core : AcceptanceAuthority → Bool
is_core core = true
is_core _ = false

module _ (is_aware : String → Bool) (before : String → String → Bool) where
  abbrev is_naive : Option String → Bool
  is_naive none = false
  is_naive (some t) = not (is_aware t)

  -- `WaiverRequest.approve`
  unfoldable pub approve :
      WaiverRequest
      → String
      → AcceptanceAuthority
      → Option String
      → Option String
      → Result ValidationError ApprovedWaiver
  approve w approved_by authority expires_at revisit_condition =
      if str_eq approved_by w.requested_by
      then raise self_approval
      else if not (may_waive authority)
      then raise waiver_authority
      else if is_endless expires_at revisit_condition
      then raise waiver_without_end
      else if is_naive expires_at
      then raise naive_timestamp
      else ok (record {
        request = w;
        approved_by = approved_by;
        authority = authority;
        expires_at = expires_at;
        revisit_condition = revisit_condition;
      })

  abbrev not_expired : Option String → String → Bool
  not_expired none now = true
  not_expired (some t) now = before now t

  -- `ApprovedWaiver.is_active`, at a time with a zone.
  abbrev pub is_active : String → ApprovedWaiver → Bool
  is_active now w = not_expired w.expires_at now

  -- `active_waivers`; only the gate ids of it are asked for.
  unfoldable pub active : String → List ApprovedWaiver → List ApprovedWaiver
  active now [] = []
  active now (w ∷ ws) = let rest = active now ws in if is_active now w then w ∷ rest else rest

  module _ (gates : List GateDefinition) (ledger : EvidenceLedger) (binding : EvidenceBinding)
      (now : String) where
    -- What `evaluate` does with the gate that it found.
    abbrev pub evaluate_gate :
        (String → Result ValidationError GateState)
        → List ApprovedWaiver
        → Option GateDefinition
        → Result ValidationError GateState
    evaluate_gate child waivers none = raise unknown_gate
    evaluate_gate child waivers (some g) =
        if waives g.gate_id waivers
        then (if g.waiver_allowed then ok waived else raise not_waivable)
        else and_then (each child g.children) λ states. ok (own_state g ledger binding states)

    -- The recursion of `GateGraph.evaluate` over the children; the fuel bounds its depth.
    unfoldable pub evaluate_from :
        ℕ → List ApprovedWaiver → String → Result ValidationError GateState
    evaluate_from zero waivers gate_id = raise recursion_limit
    evaluate_from (suc fuel) waivers gate_id =
        let still = active now waivers in
        evaluate_gate (evaluate_from fuel still) still (find_gate gate_id gates)

    -- `GateGraph.evaluate`. A gate has at most four levels of gates below and with it.
    unfoldable pub evaluate :
        AcceptanceAuthority → List ApprovedWaiver → String → Result ValidationError GateState
    evaluate authority waivers gate_id =
        if not (is_core authority)
        then raise not_core
        else if not (is_aware now)
        then raise naive_timestamp
        else evaluate_from 4 waivers gate_id
