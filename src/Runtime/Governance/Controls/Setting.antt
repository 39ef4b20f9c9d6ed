-- ===== src/Runtime/Governance/Controls/Setting.antt =====
-- What setting an operational control requires and leaves.
use artifex_dev.Prelude.{
  ℕ, String, ◌≡◌, refl, ◌⊎◌, inl, inr, Bool, true, false, Option, none, some, ◌≢◌, ok, arith, subst,
  ap, ◌∙◌, str_eq, eq_refl, ◌>>=◌, raise_if-returns, query-returns, if◌then◌else◌, ◌&&◌,
}
use artifex_dev.Runtime.Actor.{ActorPrincipal, principal, require_action, actor_principal}
use artifex_dev.Runtime.Store.Tables.{
  FenceToken, Db, OperationalControl, transaction, assert_fence, audit,
}
use artifex_dev.Runtime.Store.Controls.{
  find_control, put_control, find-put_control, set_operational_control,
}
use artifex_dev.Runtime.Governance.Base.{stored, authorize-returns}
use artifex_dev.Runtime.Governance.Controls.{
  ControlState, ControlScope, running, draining, paused, emergency_stop, control_name,
  control_state, scope_name, set_control, is_operator, authority_project, previous_state,
  is_uncertain, store_control, validate_scope, validate_project_scope, next_generation,
}
use artifex_dev.Runtime.Governance.Controls.Gate.{Each}

validate_scope-keeps :
    (scope : ControlScope) (scope_id : String) (project_id : Option String) (db : Db)
    → (validate_scope scope scope_id project_id db).1 ≡ db
unfolding validate_scope validate_project_scope
validate_scope-keeps scope scope_id project_id db = ground arith

emergency_name :
    (s : String) (previous : ControlState)
    → s ≡ "EMERGENCY_STOP"
    → control_state s ≡ ok previous
    → previous ≡ emergency_stop
unfolding control_state
emergency_name s previous e h = let h' : ok emergency_stop ≡ ok previous = rw e at h in cc

-- An emergency stop is left only when it is said to be reconciled.
not_uncertain :
    (o : Option OperationalControl) (previous state : ControlState) (reconciled : Bool)
    → previous_state o ≡ ok previous
    → is_uncertain previous state reconciled ≡ false
    → Each
        (λ old. (old.state ≢ "EMERGENCY_STOP") ⊎ ((state ≡ emergency_stop) ⊎ (reconciled ≡ true)))
        o
unfolding previous_state is_uncertain
not_uncertain none previous state reconciled h k = tt
not_uncertain (some old) previous state true h k = inr (inr refl)
not_uncertain (some old) previous emergency_stop false h k = inr (inl refl)
not_uncertain (some old) previous running false h k =
    inl λ e. let same = emergency_name old.state previous e h in ground arith
not_uncertain (some old) previous draining false h k =
    inl λ e. let same = emergency_name old.state previous e h in ground arith
not_uncertain (some old) previous paused false h k =
    inl λ e. let same = emergency_name old.state previous e h in ground arith

module _ (scrub_secrets : String → String) where
  set_stored :
      (kind id : String) (project_id : Option String) (state reason : String) (generation : ℕ)
      (token : FenceToken) (now : ℕ) (p : ActorPrincipal) (db : Db)
      → (stored
          (set_operational_control scrub_secrets kind id project_id state reason generation token
            now
            (principal p))
          db).0
        ≡ ok tt
      → (stored
          (set_operational_control scrub_secrets kind id project_id state reason generation token
            now
            (principal p))
          db).1.controls
        ≡ put_control
            (record {
              scope_type = kind;
              scope_id = id;
              project_id = project_id;
              state = state;
              reason = reason;
              generation = generation;
              actor_id = p.actor_id;
              updated_at = now;
            })
            db.controls
  unfolding stored set_operational_control transaction assert_fence audit actor_principal ◌>>=◌
  set_stored kind id project_id state reason generation token now p db h = ground arith

  -- A call that returns has passed the tests, and ends as `store_control` ends.
  set_permitted :
      (scope : ControlScope) (scope_id : String) (project_id : Option String) (state : ControlState)
      (reason : String) (p : ActorPrincipal) (reconciled : Bool) (token : FenceToken)
      (checked now : ℕ) (db : Db) (c : OperationalControl)
      → (set_control scrub_secrets scope scope_id project_id state reason p reconciled token checked
          now db).0
        ≡ ok c
      → (require_action p "control:operate" (authority_project project_id) checked ≡ ok tt)
        × (is_operator p.actor_type ≡ true)
        × Each
            (λ old.
              (old.state ≢ "EMERGENCY_STOP") ⊎ ((state ≡ emergency_stop) ⊎ (reconciled ≡ true)))
            (find_control (scope_name scope) scope_id db.controls)
        × (set_control scrub_secrets scope scope_id project_id state reason p reconciled token
              checked now db
            ≡ store_control scrub_secrets scope scope_id project_id state reason
                (next_generation (find_control (scope_name scope) scope_id db.controls))
                p
                token
                now
                db)
  unfolding set_control
  set_permitted scope scope_id project_id state reason p reconciled token checked now db c h =
      let o = find_control (scope_name scope) scope_id db.controls in
      let (named, e1, h1) = raise_if-returns _ _ _ db c h in
      let (allowed, e2, h2) = authorize-returns _ _ db c h1 in
      let (operator, e3, h3) = raise_if-returns _ _ _ db c h2 in
      let same = validate_scope-keeps scope scope_id project_id db in
      let (u, valid, e4, h4) = query-returns _ _ db c same h3 in
      let (o', found, e5, h5) = query-returns _ _ db c refl h4 in
      let (previous, was, e6, h6) = query-returns _ _ db c refl h5 in
      let (settled, e7, h7) = raise_if-returns _ _ _ db c h6 in
      let same_row : o' ≡ o = cc in
      (
        allowed,
        ground arith,
        subst
            (Each λ old.
              (old.state ≢ "EMERGENCY_STOP") ⊎ ((state ≡ emergency_stop) ⊎ (reconciled ≡ true)))
            same_row (not_uncertain o' previous state reconciled was settled),
        e1
            ∙ e2
            ∙ e3
            ∙ e4
            ∙ e5
            ∙ e6
            ∙ e7
            ∙ ap
                (λ (t : Option OperationalControl).
                  store_control scrub_secrets scope scope_id project_id state reason
                    (next_generation t) p token now db)
                same_row,
      )

  store_written :
      (scope : ControlScope) (scope_id : String) (project_id : Option String) (state : ControlState)
      (reason : String) (generation : ℕ) (p : ActorPrincipal) (token : FenceToken) (now : ℕ)
      (db : Db) (c : OperationalControl) (kind id : String)
      → (store_control scrub_secrets scope scope_id project_id state reason generation p token now
          db).0
        ≡ ok c
      → (c.state ≡ control_name state)
        × (c.generation ≡ generation)
        × (find_control kind id
              (store_control scrub_secrets scope scope_id project_id state reason generation p token
                now db).1.controls
            ≡ (if str_eq (scope_name scope) kind && str_eq scope_id id
                then some c
                else find_control kind id db.controls))
  unfolding store_control ◌>>=◌
  store_written scope scope_id project_id state reason generation p token now db c kind id h =
      grind (arith, eq_refl, set_stored, find-put_control)

  -- When `set_control` returns a control, the actor is permitted to operate controls of the project
  -- and is a user or the service, a stored EMERGENCY_STOP stays or is said to be reconciled, the
  -- control has the new state and the next generation of its scope, and it is what is now stored at
  -- its scope, while each other scope has the control that it had.
  pub set_control_guarded :
      (scope : ControlScope) (scope_id : String) (project_id : Option String) (state : ControlState)
      (reason : String) (p : ActorPrincipal) (reconciled : Bool) (token : FenceToken)
      (checked now : ℕ) (db : Db) (c : OperationalControl) (kind id : String)
      → (set_control scrub_secrets scope scope_id project_id state reason p reconciled token checked
          now db).0
        ≡ ok c
      → (require_action p "control:operate" (authority_project project_id) checked ≡ ok tt)
        × (is_operator p.actor_type ≡ true)
        × Each
            (λ old.
              (old.state ≢ "EMERGENCY_STOP") ⊎ ((state ≡ emergency_stop) ⊎ (reconciled ≡ true)))
            (find_control (scope_name scope) scope_id db.controls)
        × (c.state ≡ control_name state)
        × (c.generation ≡ next_generation (find_control (scope_name scope) scope_id db.controls))
        × (find_control kind id
              (set_control scrub_secrets scope scope_id project_id state reason p reconciled token
                checked now db).1.controls
            ≡ (if str_eq (scope_name scope) kind && str_eq scope_id id
                then some c
                else find_control kind id db.controls))
  set_control_guarded scope scope_id project_id state reason p reconciled token checked now db c
        kind id h =
      let (allowed, operator, settled, whole) =
        set_permitted scope scope_id project_id state reason p reconciled token checked now db c
          h in
      let (new_state, new_generation, entries) =
        store_written scope scope_id project_id state reason
          (next_generation (find_control (scope_name scope) scope_id db.controls)) p token now db c
          kind id (rw whole at h) in
      (allowed, operator, settled, new_state, new_generation, rw whole entries)
