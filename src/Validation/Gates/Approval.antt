-- ===== src/Validation/Gates/Approval.antt =====
-- What it means that a gate is PASS or WAIVED.
use artifex_dev.Prelude.{
  ℕ, zero, suc, String, ◌≡◌, inl, inr, refl, sym, ap, ◌∙◌, subst, Bool, true, false, Bool-cases,
  Option-cases, Result-cases, none, some, List, [], ◌∷◌, All, Result, ok, arith, contains, str_eq,
  eq_iff,
}
use artifex_dev.Policy.{AcceptanceAuthority, core}
use artifex_dev.Validation.Errors.{ValidationError}
use artifex_dev.Validation.Entry.{EvidenceBinding}
use artifex_dev.Validation.Ledger.{EvidenceLedger}
use artifex_dev.Validation.Gates.{
  EvidenceRequirement, GateDefinition, GateState, find_gate, each, ApprovedWaiver, evaluate_from,
  evaluate, waives, active, worst, has_state, requirement_states, own_state, same_gate_state,
  evaluate_requirement,
}
use artifex_dev.Validation.Gates.Requirements.{Met, evaluate_requirement-Met}

-- A gate counts as passed if it may be waived and is, or if each of its children counts as passed
-- and each of its requirements is met.
pub data Approved (gates : List GateDefinition) (ledger : EvidenceLedger)
    (binding : EvidenceBinding) (waivers : List ApprovedWaiver) : String → Type 0 where
  by_waiver :
      {id : String} (g : GateDefinition)
      → find_gate id gates ≡ some g
      → g.waiver_allowed ≡ true
      → waives g.gate_id waivers ≡ true
      → Approved gates ledger binding waivers id
  by_evidence :
      {id : String} (g : GateDefinition)
      → find_gate id gates ≡ some g
      → ((c : String) → contains c g.children ≡ true → Approved gates ledger binding waivers c)
      → All (λ r. Met r ledger binding) g.evidence
      → Approved gates ledger binding waivers id

abbrev pub is_open : GateState → Bool
is_open GateState.pass = true
is_open GateState.waived = true
is_open _ = false

worst-open : (ss : List GateState) → worst ss ≡ none → All (λ s. is_open s ≡ true) ss
unfolding worst has_state
worst-open [] h = tt
worst-open (s ∷ ss) h = (ground arith, worst-open ss (ground arith))

each-open :
    (f : String → Result ValidationError GateState) (cs : List String) (ss : List GateState)
    → each f cs ≡ ok ss
    → All (λ s. is_open s ≡ true) ss
    → (c : String) → contains c cs ≡ true
    → (s : GateState) × (f c ≡ ok s) × (is_open s ≡ true)
unfolding each contains
each-open f [] ss h o c m = absurd (ground arith)
each-open f (d ∷ cs) ss h o c m = elim (Result-cases (f d)) [
  | inl (s, e) ↦ elim (Result-cases (each f cs)) [
    | inl (rest, e') ↦
        let p : s ∷ rest ≡ ss = ground arith in
        let opens = subst (All (λ t. is_open t ≡ true)) (sym p) o in
        elim (Bool-cases (str_eq d c)) [
          | inl same ↦ (s, ap f (sym ((eq_iff d c).0 same)) ∙ e, opens.0)
          | inr differs ↦ each-open f cs rest e' opens.1 c (ground arith)
        ]
    | inr (x, e') ↦ absurd (ground arith)
  ]
  | inr (x, e) ↦ absurd (ground arith)
]

never-waived :
    (r : EvidenceRequirement) (ledger : EvidenceLedger) (binding : EvidenceBinding)
    → same_gate_state (evaluate_requirement r ledger binding) GateState.waived ≡ false
unfolding evaluate_requirement
never-waived r ledger binding = ground arith

open-pass :
    (s : GateState)
    → is_open s ≡ true
    → same_gate_state s GateState.waived ≡ false
    → s ≡ GateState.pass
open-pass GateState.pass h k = refl
open-pass _ h k = cc

requirements-Met :
    (rs : List EvidenceRequirement) (ledger : EvidenceLedger) (binding : EvidenceBinding)
    → worst (requirement_states rs ledger binding) ≡ none
    → All (λ r. Met r ledger binding) rs
unfolding worst requirement_states has_state
requirements-Met [] ledger binding h = tt
requirements-Met (r ∷ rs) ledger binding h = (
  evaluate_requirement-Met r ledger binding (
      open-pass _ (worst-open (requirement_states (r ∷ rs) ledger binding) h).0
        (never-waived r ledger binding)),
  requirements-Met rs ledger binding (ground arith),
)

own_state-open :
    (g : GateDefinition) (ledger : EvidenceLedger) (binding : EvidenceBinding) (ss : List GateState)
    → is_open (own_state g ledger binding ss) ≡ true
    → (worst ss ≡ none) × (worst (requirement_states g.evidence ledger binding) ≡ none)
unfolding own_state worst
own_state-open g ledger binding ss h = ground arith

active-active :
    (is_aware : String → Bool) (before : String → String → Bool) (now : String)
    (ws : List ApprovedWaiver)
    → active is_aware before now (active is_aware before now ws) ≡ active is_aware before now ws
unfolding active
active-active is_aware before now [] = refl
active-active is_aware before now (w ∷ ws) = ground (arith, active-active is_aware before now ws)

module _ (is_aware : String → Bool) (before : String → String → Bool) (gates : List GateDefinition)
    (ledger : EvidenceLedger) (binding : EvidenceBinding) (now : String) where
  evaluate_from-Approved :
      (fuel : ℕ) (waivers : List ApprovedWaiver) (id : String) (s : GateState)
      → evaluate_from is_aware before gates ledger binding now fuel waivers id ≡ ok s
      → is_open s ≡ true
      → Approved gates ledger binding (active is_aware before now waivers) id
  unfolding evaluate_from
  evaluate_from-Approved zero waivers id s h o = absurd (ground arith)
  evaluate_from-Approved (suc fuel) waivers id s h o = elim (Option-cases (find_gate id gates)) [
    | inl missing ↦ absurd (ground arith)
    | inr (g, found) ↦ elim (Bool-cases (waives g.gate_id (active is_aware before now waivers))) [
      | inl w ↦ by_waiver g found (ground arith) w
      | inr w ↦
          let still = active is_aware before now waivers in
          let child = evaluate_from is_aware before gates ledger binding now fuel still in
          elim (Result-cases (each child g.children)) [
            | inl (ss, e) ↦
                let settled : own_state g ledger binding ss ≡ s = ground arith in
                let (below, own) = own_state-open g ledger binding ss (rw settled o) in
                let children_open = worst-open ss below in
                by_evidence g found
                  (λ c m.
                    let (t, e', o') = each-open child g.children ss e children_open c m in
                    subst (λ ws. Approved gates ledger binding ws c)
                      (active-active is_aware before now waivers)
                      (evaluate_from-Approved fuel still c t e' o'))
                  (requirements-Met g.evidence ledger binding own)
            | inr (x, e) ↦ absurd (ground arith)
          ]
    ]
  ]

  -- A gate that evaluates to PASS or WAIVED is approved by the waivers that are active: at every
  -- level below it, down to the task gates, each gate was waived and may be, or each of its
  -- requirements is met by current evidence of the ledger and each of its children is approved.
  pub evaluate-Approved :
      (authority : AcceptanceAuthority) (waivers : List ApprovedWaiver) (id : String)
      (s : GateState)
      → evaluate is_aware before gates ledger binding now authority waivers id ≡ ok s
      → is_open s ≡ true
      → (authority ≡ core) × Approved gates ledger binding (active is_aware before now waivers) id
  unfolding evaluate
  evaluate-Approved authority waivers id s h o =
      (ground arith, evaluate_from-Approved 4 waivers id s (ground arith) o)
