-- ===== src/Capabilities.antt =====
-- src/artifex/capabilities: which provider may act for a request.
pub mod Models
pub mod Resolver
mod Examples
