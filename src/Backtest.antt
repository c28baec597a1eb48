-- ===== src/Backtest.antt =====
-- The backtest of src/hqmts/backtest: costs, order matching, the
-- portfolio and the engine.
pub mod Types
pub mod Cost
pub mod Matcher
pub mod Portfolio
pub mod RiskAdapter
pub mod Strategy
pub mod Engine
mod Examples
mod RunExamples
