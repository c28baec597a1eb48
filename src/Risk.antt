-- ===== src/Risk.antt =====
-- The risk checks of src/hqmts/risk.
pub mod Types
pub mod Rules
pub mod Engine
pub mod FinalContext
pub mod FinalCheck
pub mod ForceFlatten
mod Examples
mod FlattenExamples
