-- ===== src/Validation.antt =====
-- The validation of src/hqmts/validation: the splits of a history of bars.
pub mod Splitter
mod Examples
