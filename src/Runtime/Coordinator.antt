-- ===== src/Runtime/Coordinator.antt =====
-- `ExecutionCoordinator` of src/artifex/runtime/coordinator.py over the store. `Base` has errors
-- and lookups, `Creation` the methods that add rows, `Dispatch` the authorization of a provider,
-- `Attempts` start and finish of an attempt, `Reconciliation` the rest of its life.
pub mod Base
pub mod Creation
pub mod Dispatch
pub mod Attempts
pub mod Reconciliation
