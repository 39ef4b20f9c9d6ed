-- ===== src/Runtime/Store/Transitions.antt =====
-- `insert`, `transition`, `transition_batch` and `set_workspace_state` of
-- src/artifex/runtime/store.py. A row is inserted as a record of its table, so the check of the
-- table's name is one of types; the keys and references that SQLite enforces are tested.
use artifex_dev.Prelude.{
  ℕ, ◌==◌, String, Bool, true, false, not, ◌&&◌, ◌||◌, Option, none, some, List, [], ◌∷◌,
  if◌then◌else◌, Result, raise, pure, fail, gets, modify, raise_if, lift, ◌>>=◌, ◌>>◌, Dict, lookup,
  put, str_eq,
}
use artifex_dev.Runtime.Actor.{ActorLike, is_unidentified}
use artifex_dev.Runtime.Json.{Fields, number, text, field, done, optional_text}
use artifex_dev.Runtime.Store.Tables.{
  StoreError, unidentified_actor, empty_batch, unsupported_target, lost_race, integrity_error,
  no_such_column, changed, FenceToken, Workstream, Run, ProjectJob, Attempt, Workspace, Db, Method,
  transaction, assert_fence, audit,
}
use artifex_dev.Runtime.Store.Lease.{find_envelope}

pub data Row : Type 0 where
  workstream_row : Workstream → Row
  run_row : Run → Row
  job_row : ProjectJob → Row
  attempt_row : Attempt → Row
  workspace_row : Workspace → Row

abbrev pub is_some : {A : Type 0} → Option A → Bool
is_some none = false
is_some (some a) = true

-- A row with this value in a unique column.
unfoldable pub has_value : {A : Type 0} → (A → Bool) → Dict A → Bool
has_value p [] = false
has_value p ((k, a) ∷ rest) = p a || has_value p rest

abbrev same_ordinal : Attempt → Attempt → Bool
same_ordinal a b = str_eq b.project_job_id a.project_job_id && b.ordinal == a.ordinal

-- What SQLite checks of an INSERT: the primary key, the references and the UNIQUE columns.
unfoldable pub violates : Row → Db → Bool
unfolding has_value
violates (workstream_row w) db = is_some (lookup w.workstream_id db.workstreams)
violates (run_row r) db =
    is_some (lookup r.run_id db.runs)
    || not (is_some (lookup r.workstream_id db.workstreams))
    || not (is_some (find_envelope r.envelope_id r.envelope_version db.envelopes))
violates (job_row j) db =
    is_some (lookup j.project_job_id db.project_jobs) || not (is_some (lookup j.run_id db.runs))
violates (attempt_row a) db =
    is_some (lookup a.attempt_id db.attempts)
    || not (is_some (lookup a.project_job_id db.project_jobs))
    || has_value (same_ordinal a) db.attempts
violates (workspace_row w) db =
    is_some (lookup w.workspace_id db.workspaces)
    || not (is_some (lookup w.attempt_id db.attempts))
    || has_value (λ v. str_eq v.attempt_id w.attempt_id) db.workspaces

unfoldable pub add_row : Row → Db → Db
add_row (workstream_row w) db = record db { workstreams = put w.workstream_id w db.workstreams }
add_row (run_row r) db = record db { runs = put r.run_id r db.runs }
add_row (job_row j) db = record db { project_jobs = put j.project_job_id j db.project_jobs }
add_row (attempt_row a) db = record db { attempts = put a.attempt_id a db.attempts }
add_row (workspace_row w) db = record db { workspaces = put w.workspace_id w db.workspaces }

abbrev table_of : Row → String
table_of (workstream_row _) = "workstreams"
table_of (run_row _) = "runs"
table_of (job_row _) = "project_jobs"
table_of (attempt_row _) = "attempts"
table_of (workspace_row _) = "workspaces"

-- The identifier is the first column.
abbrev key_of : Row → String
key_of (workstream_row w) = w.workstream_id
key_of (run_row r) = r.run_id
key_of (job_row j) = j.project_job_id
key_of (attempt_row a) = a.attempt_id
key_of (workspace_row w) = w.workspace_id

-- `dict(values)`, as JSON.
abbrev values_of : Row → Fields
values_of (workstream_row w) = field "workstream_id" (text w.workstream_id) (
    field "project_id" (text w.project_id) (
      field "state" (text w.state)
        (field "created_at" (number w.created_at) (field "updated_at" (number w.updated_at) done))))
values_of (run_row r) = field "run_id" (text r.run_id) (
    field "workstream_id" (text r.workstream_id) (
      field "project_id" (text r.project_id) (
        field "envelope_id" (text r.envelope_id) (
          field "envelope_version" (number r.envelope_version) (
            field "state" (text r.state) (
              field "created_at" (number r.created_at)
                (field "updated_at" (number r.updated_at) done)))))))
values_of (job_row j) = field "project_job_id" (text j.project_job_id) (
    field "run_id" (text j.run_id) (
      field "state" (text j.state) (
        field "purpose" (text j.purpose) (
          field "created_at" (number j.created_at)
            (field "updated_at" (number j.updated_at) done)))))
values_of (attempt_row a) = field "attempt_id" (text a.attempt_id) (
    field "project_job_id" (text a.project_job_id) (
      field "ordinal" (number a.ordinal) (
        field "state" (text a.state) (
          field "result_claim" (optional_text a.result_claim) (
            field "reconciliation_outcome" (optional_text a.reconciliation_outcome) (
              field "created_at" (number a.created_at)
                (field "updated_at" (number a.updated_at) done)))))))
values_of (workspace_row w) = field "workspace_id" (text w.workspace_id) (
    field "attempt_id" (text w.attempt_id) (
      field "project_root" (text w.project_root) (
        field "workspace_root" (text w.workspace_root) (
          field "baseline_revision" (number w.baseline_revision)
            (field "state" (text w.state) (field "created_at" (number w.created_at) done))))))

-- The columns besides the state that a transition sets.
pub record Updates : Type 0 where
  pub result_claim : Option String
  pub reconciliation_outcome : Option String

abbrev pub no_updates : Updates
no_updates = record { result_claim = none; reconciliation_outcome = none }

-- One item of a batch.
pub record Change : Type 0 where
  pub table : String
  pub id_column : String
  pub identifier : String
  pub expected_state : String
  pub target_state : String
  pub updates : Updates

pub data Target : Type 0 where
  workstreams runs project_jobs attempts : Target

-- `(table, id_column) in allowed`
unfoldable pub target_of : String → String → Option Target
target_of table id_column =
    if str_eq table "workstreams" && str_eq id_column "workstream_id"
    then some workstreams
    else if str_eq table "runs" && str_eq id_column "run_id"
    then some runs
    else if str_eq table "project_jobs" && str_eq id_column "project_job_id"
    then some project_jobs
    else if str_eq table "attempts" && str_eq id_column "attempt_id"
    then some attempts
    else none

-- `f"{table.upper()}_TRANSITION"`
abbrev event_of : Target → String
event_of workstreams = "WORKSTREAMS_TRANSITION"
event_of runs = "RUNS_TRANSITION"
event_of project_jobs = "PROJECT_JOBS_TRANSITION"
event_of attempts = "ATTEMPTS_TRANSITION"

abbrev pub or_else : Option String → Option String → Option String
or_else none old = old
or_else (some s) old = some s

-- The row that `UPDATE .. WHERE id = ? AND state = ?` changes; `none` if it changes no row.
abbrev pub move : {A : Type 0} → (A → String) → (A → A) → String → Option A → Option A
move state change expected none = none
move state change expected (some a) = if str_eq (state a) expected then some (change a) else none

abbrev extra_columns : Updates → Bool
extra_columns u = is_some u.result_claim || is_some u.reconciliation_outcome

-- One UPDATE, and `cursor.rowcount != 1`.
unfoldable pub update_row : Target → Change → ℕ → Db → Result StoreError Db
update_row workstreams c now db =
    if extra_columns c.updates
    then raise no_such_column
    else changed lost_race (λ w. record db { workstreams = put c.identifier w db.workstreams })
        (move (λ w. w.state) (λ w. record w { state = c.target_state; updated_at = now })
          c.expected_state (lookup c.identifier db.workstreams))
update_row runs c now db =
    if extra_columns c.updates
    then raise no_such_column
    else changed lost_race (λ r. record db { runs = put c.identifier r db.runs })
        (move (λ r. r.state) (λ r. record r { state = c.target_state; updated_at = now })
          c.expected_state (lookup c.identifier db.runs))
update_row project_jobs c now db =
    if extra_columns c.updates
    then raise no_such_column
    else changed lost_race (λ j. record db { project_jobs = put c.identifier j db.project_jobs })
        (move (λ j. j.state) (λ j. record j { state = c.target_state; updated_at = now })
          c.expected_state (lookup c.identifier db.project_jobs))
update_row attempts c now db =
    changed lost_race (λ a. record db { attempts = put c.identifier a db.attempts })
      (move (λ a. a.state)
        (λ a. record a {
          state = c.target_state;
          updated_at = now;
          result_claim = or_else c.updates.result_claim a.result_claim;
          reconciliation_outcome =
              or_else c.updates.reconciliation_outcome a.reconciliation_outcome;
        })
        c.expected_state (lookup c.identifier db.attempts))

abbrev update_field : String → Option String → Fields → Fields
update_field key none rest = rest
update_field key (some s) rest = field key (text s) rest

-- `{"from": expected_state, "to": target_state, **extra}`
abbrev change_fields : Change → Fields
change_fields c = field "from" (text c.expected_state) (
    field "to" (text c.target_state) (
      update_field "result_claim" c.updates.result_claim
        (update_field "reconciliation_outcome" c.updates.reconciliation_outcome done)))

module _ (scrub_secrets : String → String) where
  unfoldable pub insert : Row → FenceToken → ℕ → ActorLike → String → Method (Unit {0})
  insert row token now actor_id event_type = do
    raise_if unidentified_actor (is_unidentified actor_id)
    transaction (do
      assert_fence token now
      refused ← gets (violates row)
      raise_if integrity_error refused
      modify (add_row row)
      audit scrub_secrets event_type actor_id (table_of row) (key_of row) now (values_of row) none)

  -- One item, whose target is known.
  abbrev pub apply_to : Option Target → Change → ℕ → ActorLike → Method (Unit {0})
  apply_to none c now actor_id = fail unsupported_target
  apply_to (some target) c now actor_id = do
    updated ← gets (update_row target c now)
    db ← lift updated
    modify (λ _. db)
    audit scrub_secrets (event_of target) actor_id c.table c.identifier now (change_fields c) none

  unfoldable pub apply_change : Change → ℕ → ActorLike → Method (Unit {0})
  apply_change c now actor_id = apply_to (target_of c.table c.id_column) c now actor_id

  -- The loop of `transition_batch`.
  unfoldable pub apply_changes : List Change → ℕ → ActorLike → Method (Unit {0})
  apply_changes [] now actor_id = pure tt
  apply_changes (c ∷ cs) now actor_id = do
    apply_change c now actor_id
    apply_changes cs now actor_id

  abbrev is_nil : List Change → Bool
  is_nil [] = true
  is_nil (c ∷ cs) = false

  unfoldable pub transition_batch : List Change → FenceToken → ℕ → ActorLike → Method (Unit {0})
  transition_batch changes token now actor_id = do
    raise_if unidentified_actor (is_unidentified actor_id)
    raise_if empty_batch (is_nil changes)
    transaction (do assert_fence token now; apply_changes changes now actor_id)

  abbrev pub transition : Change → FenceToken → ℕ → ActorLike → Method (Unit {0})
  transition change token now actor_id = transition_batch (change ∷ []) token now actor_id

  unfoldable pub set_workspace_state :
      String → String → String → FenceToken → ℕ → ActorLike → Method (Unit {0})
  set_workspace_state workspace_id expected target token now actor_id = do
    raise_if unidentified_actor (is_unidentified actor_id)
    transaction (do
      assert_fence token now
      updated ← gets (λ db.
          changed lost_race (λ w. record db { workspaces = put workspace_id w db.workspaces })
            (move (λ (w : Workspace). w.state) (λ w. record w { state = target }) expected
              (lookup workspace_id db.workspaces)))
      db ← lift updated
      modify (λ _. db)
      audit scrub_secrets "WORKSPACE_TRANSITION" actor_id "workspaces" workspace_id now
          (field "from" (text expected) (field "to" (text target) done)) none)
