-- ===== src/Workflow/Engine/Authority.antt =====
-- Who may accept a stage, over any history of calls on the engine.
use artifex_dev.Prelude.{
  String, ◌≡◌, ◌≢◌, ◌⊎◌, inl, inr, refl, str_eq, eq_iff, false, Option, none, some, List, [], ◌∷◌,
  Result, ok, raise, lookup, Bool-cases, arith, ap, sym, subst, ◌∙◌,
}
use artifex_dev.Policy.{core}
use artifex_dev.Workflow.Contract.{StageState, WorkflowError, accepted}
use artifex_dev.Workflow.Engine.{Engine, StageRuntime}
use artifex_dev.Workflow.Engine.Refinement.{
  Call, transition_call, call, stage_of, outcome, settle, call_refines_outcome, settle-other,
  settle_self, outcome-accepted,
}

abbrev pub state_in : Option StageRuntime → Option StageState
state_in none = none
state_in (some r) = some r.state

abbrev pub state_of : String → Engine → Option StageState
state_of id e = state_in (lookup id e)

-- A sequence of calls; a caller goes on after an error.
unfoldable pub run : List Call → Engine → Engine
run [] e = e
run (c ∷ cs) e = run cs (call c e).1

-- The history holds this call.
pub data Includes (c : Call) : List Call → Type 0 where
  here : {d : Call} {cs : List Call} → d ≡ c → Includes c (d ∷ cs)
  there : {d : Call} {cs : List Call} → Includes c cs → Includes c (d ∷ cs)

-- A call that raises leaves the engine as it was, and a call that returns changes no other stage.
pub call-frame :
    (c : Call) (e : Engine) (j : String)
    → str_eq (stage_of c) j ≡ false
    → lookup j (call c e).1 ≡ lookup j e
call-frame c e j h = rw (call_refines_outcome c e) (settle-other (stage_of c) j _ e h)

settled-accepted :
    (c : Call) (e : Engine) (o : Result WorkflowError StageRuntime)
    → outcome c (lookup (stage_of c) e) ≡ o
    → state_of (stage_of c) (settle (stage_of c) o e).1 ≡ some accepted
    → (state_of (stage_of c) e ≡ some accepted)
      ⊎ (c ≡ transition_call (stage_of c) accepted (some core))
settled-accepted c e (raise x) h p = inl p
settled-accepted c e (ok r) h p =
    let (id, q, _, _, _) =
      outcome-accepted c _ r h (ground (arith, settle_self (stage_of c) r e)) in
    inr (subst (λ i. c ≡ transition_call i accepted (some core)) (sym (ap stage_of q)) q)

-- One call brings a stage to ACCEPTED only if it asks for exactly that with Core authority.
pub call-accepted :
    (c : Call) (e : Engine) (id : String)
    → state_of id (call c e).1 ≡ some accepted
    → (state_of id e ≡ some accepted) ⊎ (c ≡ transition_call id accepted (some core))
call-accepted c e id p = elim (Bool-cases (str_eq (stage_of c) id)) [
  | inl same ↦
      let q = (eq_iff (stage_of c) id).0 same in
      subst (λ i. (state_of i e ≡ some accepted) ⊎ (c ≡ transition_call i accepted (some core))) q
        (settled-accepted c e _ refl (
          rw (← call_refines_outcome c e)
            (subst (λ i. state_of i (call c e).1 ≡ some accepted) (sym q) p)))
  | inr other ↦ inl (sym (ap state_in (call-frame c e id other)) ∙ p)
]

Option-State-discrete : Discrete (Option StageState)
Option-State-discrete = hlevel

-- Whatever the history of calls, raising or not, a stage that it brings to ACCEPTED was brought
-- there by a call of `transition` with Core authority that the history holds.
pub accepted_by_core :
    (cs : List Call) (e : Engine) (id : String)
    → state_of id e ≢ some accepted
    → state_of id (run cs e) ≡ some accepted
    → Includes (transition_call id accepted (some core)) cs
unfolding run
accepted_by_core [] e id h p = absurd (h p)
accepted_by_core (c ∷ cs) e id h p =
    elim (Option-State-discrete (state_of id (call c e).1) (some accepted)) [
      | yes q ↦ elim (call-accepted c e id q) [ inl old ↦ absurd (h old) | inr asked ↦ here asked ]
      | no n ↦ there (accepted_by_core cs (call c e).1 id n p)
    ]
