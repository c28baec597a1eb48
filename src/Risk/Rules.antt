-- ===== src/Risk/Rules.antt =====
-- The rules of src/hqmts/risk/rules, one module for each layer, and what they promise.
pub mod Market
pub mod Account
pub mod Strategy
pub mod Instrument
pub mod Order
pub mod Flatten
pub mod Sizing
