-- ===== src/Runtime/Governance.antt =====
-- src/artifex/runtime/governance.py: sessions, material decisions and operational control.
pub mod Base
pub mod Sessions
pub mod Decisions
pub mod Controls
mod Examples
