-- ===== src/Runtime/Coordinator/Base.antt =====
-- What the methods of src/artifex/runtime/coordinator.py share. A reading of the clock is an
-- argument of the method; `self.token` is one too.
use artifex_dev.Prelude.{
  ℕ, leb, String, Bool, true, false, Option, none, some, Result, ok, raise, Exec, require, lookup,
}
use artifex_dev.Runtime.Actor.{
  ActorType, ActorLike, AuthorizationError, named, principal, interaction_client, provider,
  automation_system_actor,
}
use artifex_dev.Runtime.Store.Tables.{
  StoreError, Db, EnvelopeRow, Workstream, Run, ProjectJob, Attempt,
}
use artifex_dev.Runtime.Store.Tables
use artifex_dev.Runtime.Store.Lease.{find_envelope}
use artifex_dev.Runtime.Store.Transitions.{Change, Updates}

-- The sites that raise in coordinator.py, and the errors that pass through it.
pub data CoordinatorError : Type 0 where
  from_store : StoreError → CoordinatorError
  unauthorized : AuthorizationError → CoordinatorError
  unknown_entity envelope_missing forbidden_actor_type : CoordinatorError
  run_without_envelope envelope_project_mismatch workstream_out_of_scope : CoordinatorError
  deadline_expired workstream_project_mismatch purpose_missing attempt_limit : CoordinatorError
  attempt_not_pending provider_not_allowed role_not_allowed capability_exceeds : CoordinatorError
  filesystem_exceeds network_exceeds tool_exceeds credential_out_of_scope : CoordinatorError
  evidence_job_mismatch evidence_envelope_mismatch evidence_baseline_mismatch : CoordinatorError
  evidence_foreign_actor not_dispatched claim_missing not_cancellable : CoordinatorError
  unknown_remains recovered_claim_missing not_reconciled : CoordinatorError

abbrev pub Method : Type 0 → Type 0
Method = Exec CoordinatorError Db

abbrev relabel : {A : Type 0} → Result StoreError A × Db → Result CoordinatorError A × Db
relabel (ok a, db) = (ok a, db)
relabel (raise x, db) = (raise (from_store x), db)

-- A call of the store.
unfoldable pub stored : {A : Type 0} → Tables.Method A → Method A
stored m db = relabel (m db)

-- `ActorPrincipal.require`, whose error passes through.
abbrev pub authorize : Result AuthorizationError (Unit {0}) → Method (Unit {0})
authorize (ok u) db = (ok tt, db)
authorize (raise x) db = (raise (unauthorized x), db)

-- `_require`, for each table.
abbrev pub require_workstream : String → Method Workstream
require_workstream id db = require unknown_entity (lookup id db.workstreams) db

abbrev pub require_run : String → Method Run
require_run id db = require unknown_entity (lookup id db.runs) db

abbrev pub require_job : String → Method ProjectJob
require_job id db = require unknown_entity (lookup id db.project_jobs) db

abbrev pub require_attempt : String → Method Attempt
require_attempt id db = require unknown_entity (lookup id db.attempts) db

-- `store.envelope(run.envelope_id, run.envelope_version)`, which must be there.
abbrev pub require_envelope : CoordinatorError → Run → Method EnvelopeRow
require_envelope x run db =
    require x (find_envelope run.envelope_id run.envelope_version db.envelopes) db

-- `deadline is not None and now >= deadline`
abbrev pub is_expired : Option ℕ → ℕ → Bool
is_expired none now = false
is_expired (some deadline) now = leb deadline now

-- The actor types that may neither approve an envelope nor decide acceptance.
abbrev pub is_outsider : ActorType → Bool
is_outsider provider = true
is_outsider automation_system_actor = true
is_outsider interaction_client = true
is_outsider _ = false

-- `isinstance(actor, ActorPrincipal) and actor_type in {..}`
abbrev pub is_forbidden : ActorLike → Bool
is_forbidden (named name) = false
is_forbidden (principal p) = is_outsider p.actor_type

-- `_change`
abbrev pub change : String → String → String → String → String → Updates → Change
change table id_column identifier expected_state target_state updates = record {
  table = table;
  id_column = id_column;
  identifier = identifier;
  expected_state = expected_state;
  target_state = target_state;
  updates = updates;
}

-- The entry is there, and `P` holds of it.
abbrev pub Found : {A : Type 0} → Option A → (A → Type 0) → Type 0
Found none P = ⊥
Found (some a) P = P a
