-- ===== src/Runtime/Governance/Controls/Gate.antt =====
-- What the operational controls guard.
use artifex_dev.Prelude.{
  ◌≤◌, String, ◌≡◌, ◌⊎◌, inl, inr, Option, none, some, List, [], ◌∷◌, All, ◌≢◌, ok, arith, subst,
  lookup, eq_iff, ◌>>=◌, Result-cases, Bool-cases, Some, ltb,
}
use artifex_dev.Runtime.Store.Tables.{Db, Run, ProjectJob, Workstream, OperationalControl}
use artifex_dev.Runtime.Store.Controls.{find_control}
use artifex_dev.Runtime.Coordinator.Base.{Found}
use artifex_dev.Runtime.Governance.Controls.{
  ControlState, ControlScope, running, control_state, scope_name, rank, controls_at, strictest,
  stricter, keys_of, effective_for_attempt, assert_dispatch_allowed,
}

-- `P` holds of the entry, if there is one.
abbrev pub Each : {A : Type 0} → (A → Type 0) → Option A → Type 0
Each P none = Unit
Each P (some a) = P a

-- The control's state is a state, at most as strict as this one.
abbrev AtMost : ControlState → OperationalControl → Type 0
AtMost e c = (s : ControlState) × (control_state c.state ≡ ok s) × (rank s ≤ rank e)

strictest-AtMost :
    (best e : ControlState) (cs : List OperationalControl)
    → strictest best cs ≡ ok e
    → (rank best ≤ rank e) × All (AtMost e) cs
unfolding strictest
strictest-AtMost best e [] h = ground arith
strictest-AtMost best e (c ∷ cs) h = elim (Result-cases (control_state c.state)) [
  | inr (x, bad) ↦ absurd (ground arith)
  | inl (s, is_s) ↦
      let (above, rest) = strictest-AtMost (stricter best s) e cs (rw is_s at h) in
      (ground arith, ((s, is_s, ground arith), rest))
]

-- The maximum is the start, or the state of one of the controls.
strictest-attained :
    (best e : ControlState) (cs : List OperationalControl)
    → strictest best cs ≡ ok e
    → (e ≡ best) ⊎ (Some (λ c. control_state c.state ≡ ok e) cs)
unfolding strictest
strictest-attained best e [] h = inl (ground arith)
strictest-attained best e (c ∷ cs) h = elim (Result-cases (control_state c.state)) [
  | inr (x, bad) ↦ absurd (ground arith)
  | inl (s, is_s) ↦ elim (strictest-attained (stricter best s) e cs (rw is_s at h)) [
    | inr later ↦ inr (inr later)
    | inl here ↦ elim (Bool-cases (ltb (rank best) (rank s))) [
      | inl above ↦ inr (inl (ground arith))
      | inr below ↦ inl (ground arith)
    ]
  ]
]

-- A property of the controls at some keys holds at each key with a control.
controls_at-All :
    (P : OperationalControl → Type 0) (keys : List (ControlScope × String))
    (controls : List OperationalControl)
    → All P (controls_at keys controls)
    → All (λ key. Each P (find_control (scope_name key.0) key.1 controls)) keys
unfolding controls_at
controls_at-All P [] controls h = tt
controls_at-All P ((scope, id) ∷ keys) controls h =
    by_entry (controls_at-All P keys controls) (find_control (scope_name scope) id controls) h
  where
    by_entry :
        (All P (controls_at keys controls)
          → All (λ key. Each P (find_control (scope_name key.0) key.1 controls)) keys)
        → (o : Option OperationalControl)
        → All P
            (elim o [ none ↦ controls_at keys controls | some c ↦ c ∷ controls_at keys controls ])
        → Each P o × All (λ key. Each P (find_control (scope_name key.0) key.1 controls)) keys
    by_entry ih none h' = (tt, ih h')
    by_entry ih (some c) (first, rest) = (first, ih rest)

-- A state at most as strict as RUNNING is RUNNING.
AtMost-running : (c : OperationalControl) → AtMost running c → c.state ≡ "RUNNING"
unfolding control_state
AtMost-running c (s, is_s, low) = ground (
  arith,
  eq_iff c.state "RUNNING",
  eq_iff c.state "DRAINING",
  eq_iff c.state "PAUSED",
  eq_iff c.state "EMERGENCY_STOP",
)

All-map :
    {A : Type 0} (P Q : A → Type 0) (xs : List A) → ((x : A) → P x → Q x) → All P xs → All Q xs
All-map P Q [] f h = tt
All-map P Q (x ∷ xs) f h = (f x h.0, All-map P Q xs f h.1)

Found-map :
    {A : Type 0} (P Q : A → Type 0) (o : Option A) → ((a : A) → P a → Q a) → Found o P → Found o Q
Found-map P Q none f h = h
Found-map P Q (some a) f h = f a h

-- What `effective_for_attempt` has read when it returns.
module _ (id : String) (provider_id : Option String) (db : Db) where
  abbrev pub Scoped : (Run → ProjectJob → Workstream → Type 0) → Type 0
  Scoped P = Found (lookup id db.attempts) λ a. Found (lookup a.project_job_id db.project_jobs) λ j.
      Found (lookup j.run_id db.runs)
        λ r. Found (lookup r.workstream_id db.workstreams) λ w. P r j w

  effective-Scoped :
      (e : ControlState) (cs : List OperationalControl)
      → (effective_for_attempt id provider_id db).0 ≡ ok (e, cs)
      → Scoped λ r j w.
        (w.state ≢ "BLOCKED")
        × (cs ≡ controls_at (keys_of r j provider_id) db.controls)
        × (strictest running cs ≡ ok e)
  unfolding effective_for_attempt ◌>>=◌
  effective-Scoped e cs h = grind (arith, eq_iff)

  Scoped-map :
      (P Q : Run → ProjectJob → Workstream → Type 0)
      → ((r : Run) (j : ProjectJob) (w : Workstream) → P r j w → Q r j w)
      → Scoped P
      → Scoped Q
  Scoped-map P Q f = Found-map _ _ (lookup id db.attempts) λ a.
      Found-map _ _ (lookup a.project_job_id db.project_jobs) λ j.
        Found-map _ _ (lookup j.run_id db.runs)
          λ r. Found-map _ _ (lookup r.workstream_id db.workstreams) λ w. f r j w

  -- When `effective_for_attempt` returns a state and controls, the workstream is not BLOCKED, the
  -- control that is stored for the platform, the project, the workstream, the run, the job or the
  -- provider of the attempt, where there is one, is at most as strict as the state, and the state
  -- is RUNNING or that of one of the controls.
  pub effective_is_strictest :
      (e : ControlState) (cs : List OperationalControl)
      → (effective_for_attempt id provider_id db).0 ≡ ok (e, cs)
      → Scoped λ r j w.
        (w.state ≢ "BLOCKED")
        × All
            (λ key. Each (AtMost e) (find_control (scope_name key.0) key.1 db.controls))
            (keys_of r j provider_id)
        × ((e ≡ running) ⊎ Some (λ c. control_state c.state ≡ ok e) cs)
  effective_is_strictest e cs h =
      Scoped-map _ _
        (λ r j w (live, at_keys, largest). (
          live,
          controls_at-All (AtMost e) (keys_of r j provider_id) db.controls
              (subst (All (AtMost e)) at_keys (strictest-AtMost running e cs largest).1),
          strictest-attained running e cs largest,
        ))
        (effective-Scoped e cs h)

  allowed-running :
      (assert_dispatch_allowed id provider_id db).0 ≡ ok tt
      → (cs : List OperationalControl) × ((effective_for_attempt id provider_id db).0
          ≡ ok (running, cs))
  unfolding assert_dispatch_allowed ◌>>=◌
  allowed-running h = elim (Result-cases (effective_for_attempt id provider_id db).0) [
    | inr (x, bad) ↦ absurd (ground arith)
    | inl ((e, cs), good) ↦ (cs, ground arith)
  ]

  -- When `assert_dispatch_allowed` returns, the workstream of the attempt is not BLOCKED, and each
  -- control that is stored for the platform or for the project, the workstream, the run, the job or
  -- the provider of the attempt says RUNNING.
  pub dispatch_allowed_open :
      (assert_dispatch_allowed id provider_id db).0 ≡ ok tt
      → Scoped λ r j w.
        (w.state ≢ "BLOCKED")
        × All
            (λ key.
              Each (λ c. c.state ≡ "RUNNING") (find_control (scope_name key.0) key.1 db.controls))
            (keys_of r j provider_id)
  dispatch_allowed_open h =
      let (cs, running_now) = allowed-running h in
      Scoped-map _ _
        (λ r j w (live, at_keys, largest). (
          live,
          controls_at-All (λ c. c.state ≡ "RUNNING") (keys_of r j provider_id) db.controls
              (subst (All (λ c. c.state ≡ "RUNNING")) at_keys
                (All-map _ _ cs AtMost-running (strictest-AtMost running running cs largest).1)),
        ))
        (effective-Scoped running cs running_now)
