-- ===== src/Data.antt =====
-- The market data of src/hqmts/data: the grade of a day's bars.
pub mod Quality
mod Examples
