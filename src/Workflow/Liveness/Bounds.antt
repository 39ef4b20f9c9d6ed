-- ===== src/Workflow/Liveness/Bounds.antt =====
-- The liveness guard bounds how often a stage may be visited, and how long without progress.
use artifex_dev.Prelude.{
  ℕ, ◌+◌, ◌≤◌, ◌<◌, String, ◌≡◌, str_eq, eq_iff, Option, none, some, List, [], ◌∷◌, All, Result,
  Bool, true, false, ◌&&◌, suc, ok, raise, Dict, lookup, put, lookup-put, arith, refl, Bool-cases,
  inl, inr, ◌⊎◌, subst, if◌then◌else◌,
}
use artifex_dev.Workflow.Contract.{LivenessPolicy, LivenessStatus, WorkflowError, liveness_policy}
use artifex_dev.Workflow.Liveness.{
  Observation, Guard, LivenessReport, observe_again, observed, observe, report,
}

-- One report to the guard: the stage, its progress token and the time.
pub record Sample : Type 0 where
  pub stage : String
  pub token : String
  pub time : ℕ

abbrev pub is_ok : Result WorkflowError LivenessReport → Bool
is_ok (ok r) = true
is_ok (raise x) = false

-- A sample of the stage carries this token; one of another stage any token.
abbrev pub Carries : String → String → Sample → Type 0
Carries id token s = s.stage ≡ id → s.token ≡ token

module _ (policy : LivenessPolicy) where
  unfoldable pub observe_sample : Sample → Guard LivenessReport
  observe_sample s = observe policy s.stage s.token s.time

  -- How many of the samples are about the stage and accepted, when the guard is told all of them in
  -- turn: one that it refuses leaves it as it is, and the samples go on.
  unfoldable pub accepted_visits : String → List Sample → Dict Observation → ℕ
  unfolding observe_sample
  accepted_visits id [] d = 0
  accepted_visits id (s ∷ rest) d =
      let later = accepted_visits id rest (observe_sample s d).1 in
      if str_eq s.stage id && is_ok (observe_sample s d).0 then suc later else later

  -- The entry of a stage is within the policy.
  pub record IsWithin (o : Observation) : Type 0 where
    pub visited : 1 ≤ o.visits
    pub visits_bounded : o.visits ≤ policy.max_stage_visits
    pub no_progress_bounded : o.no_progress < policy.max_no_progress_observations
    pub chronological : o.last_progress_at ≤ o.last_observed_at

  -- How the entry of a stage may follow on the one before.
  pub record Follows (p o : Observation) (token : String) (at : ℕ) : Type 0 where
    pub one_more : o.visits ≡ p.visits + 1
    pub in_order : p.last_observed_at ≤ at
    pub same_token : o.token ≡ token
    pub observed_at : o.last_observed_at ≡ at

  observe_again-Follows :
      (p o : Observation) (token : String) (at : ℕ) (s : LivenessStatus)
      → observe_again policy p token at ≡ ok (o, s)
      → Follows p o token at
  unfolding observe_again
  observe_again-Follows p o token at s h = ground (arith, eq_iff token p.token)

  observe_again-IsWithin :
      (p o : Observation) (token : String) (at : ℕ) (s : LivenessStatus)
      → liveness_policy policy ≡ ok policy
      → IsWithin p
      → observe_again policy p token at ≡ ok (o, s)
      → IsWithin o
  unfolding observe_again liveness_policy
  observe_again-IsWithin p o token at s v w h = ground arith

  observed-IsWithin :
      (p : Option Observation) (o : Observation) (token : String) (at : ℕ) (s : LivenessStatus)
      → liveness_policy policy ≡ ok policy
      → ((q : Observation) → p ≡ some q → IsWithin q)
      → observed policy p token at ≡ ok (o, s)
      → IsWithin o
  unfolding liveness_policy
  observed-IsWithin none o token at s v w h = ground arith
  observed-IsWithin (some p) o token at s v w h =
      observe_again-IsWithin p o token at s v (w p refl) h

  pub record AllWithin (d : Dict Observation) : Type 0 where
    pub at : (id : String) (o : Observation) → lookup id d ≡ some o → IsWithin o

  -- `observe` either raises and leaves the guard alone, or writes the entry that it computed.
  observe-cases :
      (id token : String) (at : ℕ) (d : Dict Observation)
      → ((x : WorkflowError) × (observe policy id token at d ≡ (raise x, d)))
        ⊎ ((o : Observation) × (s : LivenessStatus) × (r : LivenessReport) × (observed policy
                (lookup id d)
                token
                at
              ≡ ok (o, s))
            × (observe policy id token at d ≡ (ok r, put id o d)))
  unfolding observe
  observe-cases id token at d = split (observed policy (lookup id d) token at) refl
    where
      split :
          (q : Result WorkflowError (Observation × LivenessStatus))
          → observed policy (lookup id d) token at ≡ q
          → ((x : WorkflowError) × (observe policy id token at d ≡ (raise x, d)))
            ⊎ ((o : Observation) × (s : LivenessStatus) × (r : LivenessReport) × (observed policy
                    (lookup id d)
                    token
                    at
                  ≡ ok (o, s))
                × (observe policy id token at d ≡ (ok r, put id o d)))
      split (ok (o, s)) q = inr (o, s, report policy id o s, q, ground arith)
      split (raise x) q = inl (x, ground arith)

  -- Every observation, refused or not, keeps the entry of every stage within a valid policy.
  pub observe-AllWithin :
      (id token : String) (at : ℕ) (d : Dict Observation)
      → liveness_policy policy ≡ ok policy
      → AllWithin d
      → AllWithin (observe policy id token at d).1
  observe-AllWithin id token at d v a = elim (observe-cases id token at d) [
    | inl (x, e) ↦ rw e a
    | inr (o, s, r, q, e) ↦ rw e (record {
      at = λ j b found. elim (Bool-cases (str_eq id j)) [
        | inl same ↦
            subst IsWithin (ground (arith, lookup-put id j o d))
              (observed-IsWithin (lookup id d) o token at s v (a.at id) q)
        | inr other ↦ a.at j b (ground (arith, lookup-put id j o d))
      ];
    })
  ]

  sample-AllWithin :
      (s : Sample) (d : Dict Observation)
      → liveness_policy policy ≡ ok policy
      → AllWithin d
      → AllWithin (observe_sample s d).1
  unfolding observe_sample
  sample-AllWithin s d v a = observe-AllWithin s.stage s.token s.time d v a

  abbrev visits_of : Option Observation → ℕ
  visits_of none = 0
  visits_of (some o) = o.visits

  one_more_visit :
      (p : Option Observation) (o : Observation) (token : String) (at : ℕ) (s : LivenessStatus)
      → observed policy p token at ≡ ok (o, s)
      → o.visits ≡ visits_of p + 1
  one_more_visit none o token at s h = ground arith
  one_more_visit (some p) o token at s h = ground (arith, observe_again-Follows p o token at s h)

  visits_bounded :
      (p : Option Observation)
      → ((o : Observation) → p ≡ some o → IsWithin o)
      → visits_of p ≤ policy.max_stage_visits
  visits_bounded none w = omega arith
  visits_bounded (some o) w = let b = w o refl in omega arith

  -- What an observation does to the entry of one stage: it is accepted for this stage and written,
  -- or the entry stays.
  step-cases :
      (id : String) (s : Sample) (d : Dict Observation)
      → ((str_eq s.stage id && is_ok (observe_sample s d).0) ≡ false
          × (lookup id (observe_sample s d).1 ≡ lookup id d))
        ⊎ ((o : Observation) × (t : LivenessStatus) × (s.stage ≡ id)
            × ((str_eq s.stage id && is_ok (observe_sample s d).0) ≡ true)
            × (observed policy (lookup id d) s.token s.time ≡ ok (o, t))
            × (lookup id (observe_sample s d).1 ≡ some o))
  unfolding observe_sample
  step-cases id s d = elim (observe-cases s.stage s.token s.time d) [
    | inl (x, e) ↦ inl (rw e (ground arith), rw e refl)
    | inr (o, t, r, q, e) ↦ elim (Bool-cases (str_eq s.stage id)) [
      | inr other ↦ inl (rw other refl, rw e (ground (arith, lookup-put s.stage id o d)))
      | inl same ↦
          let is_id : s.stage ≡ id = (eq_iff s.stage id).0 same in
          inr (
            o,
            t,
            is_id,
            rw (same, e) refl,
            subst (λ k. observed policy (lookup k d) s.token s.time ≡ ok (o, t)) is_id q,
            rw e (ground (arith, lookup-put s.stage id o d)),
          )
    ]
  ]

  -- A measure of the entry that each accepted sample raises by one is a budget of samples.
  budget :
      (measure : Option Observation → ℕ) (limit : ℕ) (id : String) (Good : Sample → Type 0)
      → ((p : Option Observation) (o : Observation) (s : Sample) (t : LivenessStatus)
          → Good s
          → s.stage ≡ id
          → observed policy p s.token s.time ≡ ok (o, t)
          → measure (some o) ≡ measure p + 1)
      → ((p : Option Observation)
          → ((o : Observation) → p ≡ some o → IsWithin o)
          → measure p ≤ limit)
      → liveness_policy policy ≡ ok policy
      → (samples : List Sample) (d : Dict Observation) → All Good samples
      → AllWithin d
      → measure (lookup id d) + accepted_visits id samples d ≤ limit
  unfolding accepted_visits
  budget measure limit id Good grows bounded v [] d g a =
      omega (arith, bounded (lookup id d) (a.at id))
  budget measure limit id Good grows bounded v (s ∷ rest) d g a =
      let kept = sample-AllWithin s d v a in
      let ih = budget measure limit id Good grows bounded v rest (observe_sample s d).1 g.1 kept in
      elim (step-cases id s d) [
        | inl (other, same) ↦ rw other (omega (arith, rw same at ih))
        | inr (o, t, is_id, taken, q, written) ↦
            rw taken (omega (arith, grows (lookup id d) o s t g.0 is_id q, rw written at ih))
      ]

  pub empty-AllWithin : AllWithin []
  unfolding lookup
  empty-AllWithin = record { at = λ id o q. cc }

  Any : Sample → Type 0
  Any _ = Unit

  Any-sample : (samples : List Sample) → All Any samples
  unfolding Any
  Any-sample [] = tt
  Any-sample (_ ∷ rest) = (tt, Any-sample rest)

  -- A new guard with a valid policy accepts at most `max_stage_visits` observations of one stage,
  -- whatever their tokens and times, whatever it is told of other stages in between, and however
  -- many observations it refuses.
  pub visits_budget :
      (id : String) (samples : List Sample)
      → liveness_policy policy ≡ ok policy
      → accepted_visits id samples [] ≤ policy.max_stage_visits
  unfolding lookup
  visits_budget id samples v =
      let b =
        budget visits_of policy.max_stage_visits id Any
          (λ p o s t _ _. one_more_visit p o s.token s.time t) visits_bounded v samples []
          (Any-sample samples) empty-AllWithin in
      omega arith

  abbrev stuck_on : String → Option Observation → ℕ
  stuck_on t none = 0
  stuck_on t (some o) = if str_eq o.token t then o.no_progress + 1 else 0

  stuck_once_more :
      (t : String) (p : Option Observation) (o : Observation) (token : String) (at : ℕ)
      (s : LivenessStatus)
      → token ≡ t
      → observed policy p token at ≡ ok (o, s)
      → stuck_on t (some o) ≡ stuck_on t p + 1
  unfolding observe_again
  stuck_once_more t none o token at s same h = ground (arith, eq_iff token t)
  stuck_once_more t (some p) o token at s same h =
      ground (arith, eq_iff token p.token, eq_iff token t, eq_iff p.token t)

  stuck_bounded :
      (t : String) (p : Option Observation)
      → ((o : Observation) → p ≡ some o → IsWithin o)
      → stuck_on t p ≤ policy.max_no_progress_observations
  stuck_bounded t none w = omega arith
  stuck_bounded t (some o) w = let b = w o refl in ground arith

  -- From any state of a guard with a valid policy in which every entry is within it, as long as the
  -- observations of a stage carry one and the same token, at most `max_no_progress_observations` of
  -- them are accepted, whatever the guard is told of other stages in between, and however many
  -- observations it refuses.
  pub no_progress_budget :
      (id token : String) (samples : List Sample) (d : Dict Observation)
      → liveness_policy policy ≡ ok policy
      → AllWithin d
      → All (Carries id token) samples
      → accepted_visits id samples d ≤ policy.max_no_progress_observations
  no_progress_budget id token samples d v a g =
      let b =
        budget (stuck_on token) policy.max_no_progress_observations id (Carries id token)
          (λ p o s t c is_id. stuck_once_more token p o s.token s.time t (c is_id))
          (stuck_bounded token) v samples d g a in
      omega arith
