-- ===== src/Runtime/Governance/Controls.antt =====
-- `OperationalControlManager` of src/artifex/runtime/governance.py.
pub mod Gate
pub mod Setting
use artifex_dev.Prelude.{
  ℕ, ◌+◌, ltb, String, Bool, true, false, not, ◌&&◌, ◌||◌, Option, none, some, List, [], ◌∷◌, ◌++◌,
  if◌then◌else◌, Result, ok, raise, and_then, pure, fail, gets, require, raise_if, lift, ◌>>=◌,
  ◌>>◌, lookup, str_eq, is_blank,
}
use artifex_dev.Runtime.Actor.{
  ActorType, ActorPrincipal, principal, require_action, user, artifex_service,
}
use artifex_dev.Runtime.Store.Tables.{
  FenceToken, Db, Attempt, ProjectJob, Run, Workstream, OperationalControl,
}
use artifex_dev.Runtime.Store.Controls.{find_control, set_operational_control}
use artifex_dev.Runtime.Coordinator.Reconciliation.{
  cancel_attempt, mark_unknown, begin_reconciliation,
}
use artifex_dev.Runtime.Governance.Base.{
  GovernanceError, control_identity_missing, not_an_operator, bad_platform_scope,
  bad_provider_scope, project_missing, scope_outside_project, unsupported_scope, not_reconciled,
  unknown_entity, blocked_by_decision, dispatch_blocked, not_running, bad_value, failed_assertion,
  Method, stored, coordinated, authorize,
}
use artifex_dev.Runtime.Governance.Sessions.{run_in, workstream_in}

pub data ControlState : Type 0 where
  running draining paused emergency_stop : ControlState

pub data ControlScope : Type 0 where
  platform project workstream run project_job provider : ControlScope

-- `OperationalControlState.value`
abbrev pub control_name : ControlState → String
control_name running = "RUNNING"
control_name draining = "DRAINING"
control_name paused = "PAUSED"
control_name emergency_stop = "EMERGENCY_STOP"

-- `OperationalControlState(value)`
unfoldable pub control_state : String → Result GovernanceError ControlState
control_state s =
    if str_eq s "RUNNING"
    then ok running
    else if str_eq s "DRAINING"
    then ok draining
    else if str_eq s "PAUSED"
    then ok paused
    else if str_eq s "EMERGENCY_STOP"
    then ok emergency_stop
    else raise bad_value

-- `ControlScope.value`
abbrev pub scope_name : ControlScope → String
scope_name platform = "PLATFORM"
scope_name project = "PROJECT"
scope_name workstream = "WORKSTREAM"
scope_name run = "RUN"
scope_name project_job = "PROJECT_JOB"
scope_name provider = "PROVIDER"

-- `_RANK`
abbrev pub rank : ControlState → ℕ
rank running = 0
rank draining = 1
rank paused = 2
rank emergency_stop = 3

abbrev pub is_operator : ActorType → Bool
is_operator user = true
is_operator artifex_service = true
is_operator _ = false

abbrev is_emergency : ControlState → Bool
is_emergency emergency_stop = true
is_emergency _ = false

-- `project_id or "*"`
abbrev pub authority_project : Option String → String
authority_project none = "*"
authority_project (some id) = if str_eq id "" then "*" else id

abbrev job_in : String → Option ProjectJob → Db → Bool
job_in project_id none db = false
job_in project_id (some j) db = run_in project_id (lookup j.run_id db.runs)

-- `_validate_project_scope`
unfoldable pub validate_project_scope : ControlScope → String → String → Method (Unit {0})
validate_project_scope project scope_id project_id db =
    raise_if scope_outside_project (not (str_eq scope_id project_id)) db
validate_project_scope workstream scope_id project_id db =
    raise_if scope_outside_project (not (workstream_in project_id (lookup scope_id db.workstreams)))
      db
validate_project_scope run scope_id project_id db =
    raise_if scope_outside_project (not (run_in project_id (lookup scope_id db.runs))) db
validate_project_scope project_job scope_id project_id db =
    raise_if scope_outside_project (not (job_in project_id (lookup scope_id db.project_jobs) db)) db
validate_project_scope _ scope_id project_id db = fail unsupported_scope db

abbrev is_given : Option String → Bool
is_given none = false
is_given (some s) = true

abbrev in_project : ControlScope → String → Option String → Method (Unit {0})
in_project scope scope_id none = fail project_missing
in_project scope scope_id (some project_id) = validate_project_scope scope scope_id project_id

-- The tests of `set` on the scope.
unfoldable pub validate_scope : ControlScope → String → Option String → Method (Unit {0})
validate_scope platform scope_id project_id =
    raise_if bad_platform_scope (not (str_eq scope_id "global") || is_given project_id)
validate_scope provider scope_id project_id = raise_if bad_provider_scope (is_given project_id)
validate_scope scope scope_id project_id = in_project scope scope_id project_id

unfoldable pub previous_state : Option OperationalControl → Result GovernanceError ControlState
previous_state none = ok running
previous_state (some c) = control_state c.state

abbrev pub next_generation : Option OperationalControl → ℕ
next_generation none = 1
next_generation (some c) = c.generation + 1

unfoldable pub is_uncertain : ControlState → ControlState → Bool → Bool
is_uncertain previous state reconciled =
    is_emergency previous && not (is_emergency state) && not reconciled

module _ (scrub_secrets : String → String) where
  -- The end of `set`.
  unfoldable pub store_control :
      ControlScope
      → String
      → Option String
      → ControlState
      → String
      → ℕ
      → ActorPrincipal
      → FenceToken
      → ℕ
      → Method OperationalControl
  store_control scope scope_id project_id state reason generation p token now = do
    stored (
        set_operational_control scrub_secrets (scope_name scope) scope_id project_id
          (control_name state) reason generation token now (principal p))
    value ← gets (λ db. find_control (scope_name scope) scope_id db.controls)
    require failed_assertion value

  -- `OperationalControlManager.set`; `checked` is the clock at the check of the authority.
  unfoldable pub set_control :
      ControlScope
      → String
      → Option String
      → ControlState
      → String
      → ActorPrincipal
      → Bool
      → FenceToken
      → ℕ
      → ℕ
      → Method OperationalControl
  set_control scope scope_id project_id state reason p reconciled token checked now = do
    raise_if control_identity_missing (is_blank scope_id || is_blank reason)
    authorize (require_action p "control:operate" (authority_project project_id) checked)
    raise_if not_an_operator (not (is_operator p.actor_type))
    validate_scope scope scope_id project_id
    current ← gets (λ db. find_control (scope_name scope) scope_id db.controls)
    previous ← lift (previous_state current)
    raise_if not_reconciled (is_uncertain previous state reconciled)
    store_control scope scope_id project_id state reason (next_generation current) p token now

-- The controls at these keys.
unfoldable pub controls_at :
    List (ControlScope × String) → List OperationalControl → List OperationalControl
controls_at [] controls = []
controls_at ((scope, id) ∷ keys) controls = elim (find_control (scope_name scope) id controls) [
  | none ↦ controls_at keys controls
  | some c ↦ c ∷ controls_at keys controls
]

abbrev pub provider_key : Option String → List (ControlScope × String)
provider_key none = []
provider_key (some provider_id) = (provider, provider_id) ∷ []

abbrev pub stricter : ControlState → ControlState → ControlState
stricter a b = if ltb (rank a) (rank b) then b else a

-- `max(.., key=_RANK.__getitem__, default=RUNNING)`; no state is below the default.
unfoldable pub strictest :
    ControlState → List OperationalControl → Result GovernanceError ControlState
strictest best [] = ok best
strictest best (c ∷ cs) =
    and_then (control_state c.state) λ state. strictest (stricter best state) cs

abbrev pub keys_of : Run → ProjectJob → Option String → List (ControlScope × String)
keys_of r j provider_id =
    (platform, "global")
    ∷ (project, r.project_id)
    ∷ (workstream, r.workstream_id)
    ∷ (run, r.run_id)
    ∷ (project_job, j.project_job_id)
    ∷ provider_key provider_id

unfoldable pub effective_for_attempt :
    String → Option String → Method (ControlState × List OperationalControl)
effective_for_attempt attempt_id provider_id = do
  found_attempt ← gets (λ db. lookup attempt_id db.attempts)
  attempt ← require unknown_entity found_attempt
  found_job ← gets (λ db. lookup attempt.project_job_id db.project_jobs)
  job ← require failed_assertion found_job
  found_run ← gets (λ db. lookup job.run_id db.runs)
  r ← require failed_assertion found_run
  found ← gets (λ db. lookup r.workstream_id db.workstreams)
  w ← require failed_assertion found
  raise_if blocked_by_decision (str_eq w.state "BLOCKED")
  controls ← gets (λ db. controls_at (keys_of r job provider_id) db.controls)
  effective ← lift (strictest running controls)
  pure (effective, controls)

abbrev is_running : ControlState → Bool
is_running running = true
is_running _ = false

unfoldable pub assert_dispatch_allowed : String → Option String → Method (Unit {0})
assert_dispatch_allowed attempt_id provider_id = do
  effective ← effective_for_attempt attempt_id provider_id
  raise_if dispatch_blocked (not (is_running effective.0))

module _ (scrub_secrets : String → String) where
  -- The two endings of `emergency_attempt`; `later` is the clock of the second call.
  abbrev end_attempt : Bool → String → ActorPrincipal → FenceToken → ℕ → ℕ → Method (Unit {0})
  end_attempt true attempt_id p token now later =
      coordinated (cancel_attempt scrub_secrets attempt_id token now later (principal p))
  end_attempt false attempt_id p token now later = do
    coordinated (mark_unknown scrub_secrets attempt_id token now (principal p))
    coordinated (begin_reconciliation scrub_secrets attempt_id token later (principal p))

  unfoldable pub emergency_attempt :
      String → Bool → ActorPrincipal → FenceToken → ℕ → ℕ → Method (Unit {0})
  emergency_attempt attempt_id termination_confirmed p token now later = do
    found ← gets (λ db. lookup attempt_id db.attempts)
    attempt ← require unknown_entity found
    raise_if not_running (not (str_eq attempt.state "RUNNING"))
    end_attempt termination_confirmed attempt_id p token now later
