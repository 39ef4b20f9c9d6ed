-- ===== src/Validation/Gates/Levels.antt =====
-- The evaluation of a checked graph ends.
use artifex_dev.Prelude.{
  ℕ, zero, suc, ◌+◌, ◌<◌, String, ◌≡◌, ◌⊎◌, inl, inr, refl, Bool, true, Bool-cases, Option-cases,
  some, List, [], ◌∷◌, Result, ok, raise, arith, contains, str_eq, eq_iff, eq_refl,
}
use artifex_dev.Policy.{core}
use artifex_dev.Validation.Errors.{ValidationError, not_waivable}
use artifex_dev.Validation.Entry.{EvidenceBinding}
use artifex_dev.Validation.Ledger.{EvidenceLedger}
use artifex_dev.Validation.Gates.{
  GateDefinition, GateState, GateLevel, task, level_rank, find_gate, check_children, check_gates,
  each, ApprovedWaiver, evaluate_from, evaluate, waives, active, own_state,
}

-- A child is there, one level below.
abbrev ChildAt : List GateDefinition → GateLevel → String → Type 0
ChildAt gates level c =
    (child : GateDefinition) × (find_gate c gates ≡ some child)
    × (level_rank level ≡ level_rank child.level + 1)

children-found :
    (gates : List GateDefinition) (level : GateLevel) (cs : List String) (c : String)
    → check_children gates level cs ≡ ok tt
    → contains c cs ≡ true
    → ChildAt gates level c
unfolding check_children contains
children-found gates level [] c h m = absurd (ground arith)
children-found gates level (d ∷ cs) c h m = elim (Option-cases (find_gate d gates)) [
  | inl e ↦ absurd (ground arith)
  | inr (child, e) ↦ elim (Bool-cases (str_eq d c)) [
    | inl same ↦ (child, ground (arith, eq_iff d c), ground arith)
    | inr differs ↦ children-found gates level cs c (ground arith) (ground arith)
  ]
]

gate-checked :
    (all gates : List GateDefinition) (id : String) (g : GateDefinition)
    → check_gates all gates ≡ ok tt
    → find_gate id gates ≡ some g
    → check_children all g.level g.children ≡ ok tt
unfolding check_gates find_gate
gate-checked all [] id g h f = absurd (ground arith)
gate-checked all (d ∷ gates) id g h f = elim (Bool-cases (str_eq d.gate_id id)) [
  | inl same ↦ ground arith
  | inr differs ↦ gate-checked all gates id g (ground arith) (ground arith)
]

-- The result is a state, or the error on a waiver that the gate does not allow.
abbrev pub Settles : {A : Type 0} → Result ValidationError A → Type 0
Settles {A} r = ((a : A) × (r ≡ ok a)) ⊎ (r ≡ raise not_waivable)

each-Settles :
    (f : String → Result ValidationError GateState) (cs : List String)
    → ((c : String) → contains c cs ≡ true → Settles (f c))
    → Settles (each f cs)
unfolding each contains
each-Settles f [] h = inl ([], refl)
each-Settles f (c ∷ cs) h = elim (h c (ground (arith, eq_refl c))) [
  | inl (s, e) ↦ elim (each-Settles f cs (λ d m. h d (ground arith))) [
    | inl (ss, e') ↦ inl (s ∷ ss, rw e (rw e' refl))
    | inr e' ↦ inr (rw e (rw e' refl))
  ]
  | inr e ↦ inr (rw e refl)
]

level_bound : (l : GateLevel) → level_rank l < 4
level_bound task = omega arith
level_bound _ = omega arith

module _ (is_aware : String → Bool) (before : String → String → Bool) (gates : List GateDefinition)
    (ledger : EvidenceLedger) (binding : EvidenceBinding) (now : String)
    (checked : check_gates gates gates ≡ ok tt) where
  evaluate_from-Settles :
      (fuel : ℕ) (waivers : List ApprovedWaiver) (id : String) (g : GateDefinition)
      → find_gate id gates ≡ some g
      → level_rank g.level < fuel
      → Settles (evaluate_from is_aware before gates ledger binding now fuel waivers id)
  unfolding evaluate_from
  evaluate_from-Settles zero waivers id g found enough = absurd (omega arith)
  evaluate_from-Settles (suc fuel) waivers id g found enough =
      let still = active is_aware before now waivers in
      let below =
        each-Settles (evaluate_from is_aware before gates ledger binding now fuel still) g.children
          (λ c m.
            let (child, there, lower) =
              children-found gates g.level g.children c
                (gate-checked gates gates id g checked found) m in
            evaluate_from-Settles fuel still c child there (omega arith)) in
      rw found (elim (Bool-cases (waives g.gate_id still)) [
        | inl w ↦ elim (Bool-cases g.waiver_allowed) [
          | inl a ↦ inl (GateState.waived, ground arith)
          | inr a ↦ inr (ground arith)
        ]
        | inr w ↦ elim below [
          | inl (ss, e) ↦ inl (own_state g ledger binding ss, ground arith)
          | inr e ↦ inr (ground arith)
        ]
      ])

  -- In a graph that passed the checks, Core's evaluation of a gate of the graph, at a time with a
  -- zone, ends within the four levels: it gives a state, or raises because some gate was waived
  -- that does not allow it.
  pub evaluate-Settles :
      (waivers : List ApprovedWaiver) (id : String) (g : GateDefinition)
      → is_aware now ≡ true
      → find_gate id gates ≡ some g
      → Settles (evaluate is_aware before gates ledger binding now core waivers id)
  unfolding evaluate
  evaluate-Settles waivers id g aware found =
      rw aware (evaluate_from-Settles 4 waivers id g found (level_bound g.level))
