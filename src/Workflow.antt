-- ===== src/Workflow.antt =====
-- src/artifex/workflow/core.py: stage contracts, the engine and the liveness guard.
pub mod Contract
pub mod Engine
pub mod Liveness
mod Examples
