-- ===== src/Agent.antt =====
-- The agents of src/hqmts/agent: what their policy lets through.
pub mod Types
pub mod Tools
pub mod Policy
mod Examples
