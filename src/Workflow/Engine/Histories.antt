-- ===== src/Workflow/Engine/Histories.antt =====
-- Histories of an engine whose stages all have the standard transitions.
use artifex_dev.Prelude.{
  String, ◌≡◌, ◌≢◌, ◌⊎◌, inl, inr, refl, str_eq, eq_iff, Option, none, some, List, [], ◌∷◌, All,
  Result, ok, raise, lookup, lookup-put, Bool-cases, arith, subst, ◌∙◌,
}
use artifex_dev.Workflow.Contract.{
  StageState, WorkflowError, pending, accepted, failed, cancelled, standard_transitions,
}
use artifex_dev.Workflow.Engine.{Engine, StageRuntime}
use artifex_dev.Workflow.Engine.Refinement.{
  Call, register_call, transition_call, start_call, claim_call, call, stage_of, outcome, settle,
  call_refines_outcome,
}
use artifex_dev.Workflow.Engine.Authority.{run, call-frame}
use artifex_dev.Workflow.Engine.Diagram.{◌⟶◌, prepare, outcome-edge}

infix 40 ◌⟶*◌
pub data ◌⟶*◌ (s : StageState) : StageState → Type 0 where
  here : s ⟶* s
  step : {t u : StageState} → s ⟶* t → t ⟶ u → s ⟶* u

-- The history registers standard stages only.
abbrev pub IsStandard : Call → Type 0
IsStandard (register_call c) = c.transitions ≡ standard_transitions
IsStandard _ = Unit {0}

-- A stage with the standard transitions whose state the diagram reaches from PENDING.
pub record IsTraced (r : StageRuntime) : Type 0 where
  pub standard : r.contract.transitions ≡ standard_transitions
  pub reached : pending ⟶* r.state

pub record AllTraced (e : Engine) : Type 0 where
  pub at : (id : String) (r : StageRuntime) → lookup id e ≡ some r → IsTraced r

outcome-IsTraced :
    (c : Call) (o : Option StageRuntime) (r : StageRuntime)
    → IsStandard c
    → ((b : StageRuntime) → o ≡ some b → IsTraced b)
    → outcome c o ≡ ok r
    → IsTraced r
unfolding outcome
outcome-IsTraced c (some b) r s h p =
    let t = h b refl in
    let (kept, edge) = outcome-edge c b r t.standard p in
    record { standard = ground arith; reached = step t.reached edge }
outcome-IsTraced (register_call c) none r s h p =
    let fresh : pending ≡ r.state = ground arith in
    record { standard = ground arith; reached = subst (λ t. pending ⟶* t) fresh here }
outcome-IsTraced (transition_call _ _ _) none r s h p = cc
outcome-IsTraced (start_call _ _ _ _) none r s h p = cc
outcome-IsTraced (claim_call _ _) none r s h p = cc

settle-AllTraced :
    (c : Call) (e : Engine) (o : Result WorkflowError StageRuntime)
    → AllTraced e
    → ((r : StageRuntime) → o ≡ ok r → IsTraced r)
    → AllTraced (settle (stage_of c) o e).1
settle-AllTraced c e (raise x) a h = a
settle-AllTraced c e (ok r) a h = record {
  at = λ id b q. elim (Bool-cases (str_eq (stage_of c) id)) [
    | inl same ↦
        let same_stage : r ≡ b = ground (arith, lookup-put (stage_of c) id r e) in
        subst IsTraced same_stage (h r refl)
    | inr other ↦ a.at id b (ground (arith, lookup-put (stage_of c) id r e))
  ];
}

call-AllTraced : (c : Call) (e : Engine) → IsStandard c → AllTraced e → AllTraced (call c e).1
call-AllTraced c e s a =
    rw (call_refines_outcome c e)
      (settle-AllTraced c e _ a (λ r p. outcome-IsTraced c _ r s (λ b q. a.at (stage_of c) b q) p))

run-AllTraced :
    (cs : List Call) (e : Engine) → All IsStandard cs → AllTraced e → AllTraced (run cs e)
unfolding run
run-AllTraced [] e s a = a
run-AllTraced (c ∷ cs) e s a = run-AllTraced cs (call c e).1 s.1 (call-AllTraced c e s.0 a)

empty-AllTraced : AllTraced []
unfolding lookup
empty-AllTraced = record { at = λ id r q. cc }

-- The standard diagram has no way into CANCELLED.
edge-ne-cancelled : {s t : StageState} → s ⟶ t → t ≢ cancelled
edge-ne-cancelled prepare p = cc
edge-ne-cancelled _ p = cc

reached-ne-cancelled : {s t : StageState} → s ≢ cancelled → s ⟶* t → t ≢ cancelled
reached-ne-cancelled h here = h
reached-ne-cancelled h (step r e) = edge-ne-cancelled e

-- After any calls on a new engine that register standard stages only, each stage still has the
-- standard transitions and a state that the diagram reaches from PENDING, so never CANCELLED.
pub history_follows_diagram :
    (cs : List Call) (id : String) (r : StageRuntime)
    → All IsStandard cs
    → lookup id (run cs []) ≡ some r
    → (r.contract.transitions ≡ standard_transitions) × (pending ⟶* r.state) × (r.state ≢ cancelled)
history_follows_diagram cs id r s q =
    let t = (run-AllTraced cs [] s empty-AllTraced).at id r q in
    (t.standard, t.reached, reached-ne-cancelled (λ p. cc) t.reached)

edge-live : {s t : StageState} → s ⟶ t → (s ≢ accepted) × (s ≢ failed)
edge-live prepare = (λ p. cc, λ p. cc)
edge-live _ = (λ p. cc, λ p. cc)

settled-frozen :
    (c : Call) (e : Engine) (b : StageRuntime) (o : Result WorkflowError StageRuntime)
    → b.contract.transitions ≡ standard_transitions
    → (b.state ≡ accepted) ⊎ (b.state ≡ failed)
    → outcome c (some b) ≡ o
    → settle (stage_of c) o e ≡ (o, e)
settled-frozen c e b (raise x) h final q = refl
settled-frozen c e b (ok r) h final q =
    let (_, edge) = outcome-edge c b r h q in
    let (not_accepted, not_failed) = edge-live edge in
    absurd (elim final [ inl p ↦ not_accepted p | inr p ↦ not_failed p ])

-- A standard stage that is ACCEPTED or FAILED stays exactly as it is under every call.
pub final_stage_frozen :
    (c : Call) (e : Engine) (id : String) (b : StageRuntime)
    → lookup id e ≡ some b
    → b.contract.transitions ≡ standard_transitions
    → (b.state ≡ accepted) ⊎ (b.state ≡ failed)
    → lookup id (call c e).1 ≡ some b
final_stage_frozen c e id b found h final = elim (Bool-cases (str_eq (stage_of c) id)) [
  | inl same ↦
      let here_found : lookup (stage_of c) e ≡ some b =
        rw ((eq_iff (stage_of c) id).0 same) found in
      rw (call_refines_outcome c e, here_found, settled-frozen c e b _ h final refl) found
  | inr other ↦ call-frame c e id other ∙ found
]
