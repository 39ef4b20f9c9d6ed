-- ===== src/Runtime.antt =====
-- src/artifex/runtime: the durable runtime.
pub mod Actor
pub mod Path
pub mod Envelope
pub mod Json
pub mod Store
pub mod Coordinator
pub mod Acceptance
pub mod Governance
mod Examples
mod Scenarios
