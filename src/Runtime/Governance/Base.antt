-- ===== src/Runtime/Governance/Base.antt =====
-- What the managers of src/artifex/runtime/governance.py share. A reading of the clock and the
-- coordinator's token are arguments of a method.
use artifex_dev.Prelude.{Bool, Result, ok, raise, Exec, str_eq, ◌≡◌, refl, ◌>>=◌, arith}
use artifex_dev.Runtime.Actor.{ActorType, AuthorizationError}
use artifex_dev.Runtime.Store.Tables.{StoreError, Db, type_name}
use artifex_dev.Runtime.Store.Tables
use artifex_dev.Runtime.Coordinator.Base.{CoordinatorError}
use artifex_dev.Runtime.Coordinator.Base as Coordinator

-- The sites that raise in governance.py, and the errors that pass through it.
pub data GovernanceError : Type 0 where
  from_store : StoreError → GovernanceError
  from_coordinator : CoordinatorError → GovernanceError
  unauthorized : AuthorizationError → GovernanceError
  not_a_client run_outside_project run_workstream_mismatch : GovernanceError
  workstream_outside_project unknown_session not_active actor_mismatch : GovernanceError
  not_disconnected invalid_credential not_strategic question_missing : GovernanceError
  workstreams_repeated cannot_block unknown_request not_a_user : GovernanceError
  resolution_missing unknown_entity blocked_by_decision control_identity_missing : GovernanceError
  not_an_operator bad_platform_scope bad_provider_scope project_missing : GovernanceError
  scope_outside_project unsupported_scope not_reconciled dispatch_blocked : GovernanceError
  not_running : GovernanceError
  -- `ValueError` of an enumeration on a stored text, and a failing `assert`.
  bad_value failed_assertion : GovernanceError

abbrev pub Method : Type 0 → Type 0
Method = Exec GovernanceError Db

abbrev relabel : {A : Type 0} → Result StoreError A × Db → Result GovernanceError A × Db
relabel (ok a, db) = (ok a, db)
relabel (raise x, db) = (raise (from_store x), db)

-- A call of the store.
unfoldable pub stored : {A : Type 0} → Tables.Method A → Method A
stored m db = relabel (m db)

abbrev relabel_coordinator :
    {A : Type 0} → Result CoordinatorError A × Db → Result GovernanceError A × Db
relabel_coordinator (ok a, db) = (ok a, db)
relabel_coordinator (raise x, db) = (raise (from_coordinator x), db)

-- A call of the coordinator.
unfoldable pub coordinated : {A : Type 0} → Coordinator.Method A → Method A
coordinated m db = relabel_coordinator (m db)

-- `ActorPrincipal.require`, whose error passes through.
abbrev pub authorize : Result AuthorizationError (Unit {0}) → Method (Unit {0})
authorize (ok u) db = (ok tt, db)
authorize (raise x) db = (raise (unauthorized x), db)

-- `a is b` on actor types
abbrev pub same_type : ActorType → ActorType → Bool
same_type a b = str_eq (type_name a) (type_name b)

pub authorize-returns :
    {A : Type 0} (r : Result AuthorizationError (Unit {0})) (m : Method A) (db : Db) (a : A)
    → ((authorize r >>= λ _. m) db).0 ≡ ok a
    → (r ≡ ok tt) × ((authorize r >>= λ _. m) db ≡ m db) × ((m db).0 ≡ ok a)
unfolding ◌>>=◌
authorize-returns (ok u) m db a h = (refl, refl, h)
authorize-returns (raise x) m db a h = cc

pub stored-returns :
    {A : Type 0} (m : Tables.Method A) (db : Db) (a : A)
    → (stored m db).0 ≡ ok a
    → ((m db).0 ≡ ok a) × ((stored m db).1 ≡ (m db).1)
unfolding stored
stored-returns {A} m db a h = by_outcome (m db) h
  where
    by_outcome :
        (t : Result StoreError A × Db) → (relabel t).0 ≡ ok a → (t.0 ≡ ok a) × ((relabel t).1 ≡ t.1)
    by_outcome (ok b, later) h' = (ground arith, refl)
    by_outcome (raise x, later) h' = cc
