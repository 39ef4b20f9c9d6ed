-- ===== src/Runtime/Store.antt =====
-- `SQLiteRunStore` of src/artifex/runtime/store.py. `Tables` has the database and what SQLite does
-- with a statement, the others down to `Controls` have the methods.
pub mod Tables
pub mod Lease
pub mod Transitions
pub mod Records
pub mod Proposals
pub mod Sessions
pub mod Requests
pub mod Controls
pub mod Writes
pub mod Fencing
mod Examples
