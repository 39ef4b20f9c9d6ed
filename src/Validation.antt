-- ===== src/Validation.antt =====
-- src/artifex/validation: acceptance contracts, evidence with its codec and ledger, and gates.
pub mod Errors
pub mod Contract
pub mod Entry
pub mod Validators
pub mod Payload
pub mod Ledger
pub mod Gates
mod Examples
