-- ===== src/Execution.antt =====
-- The execution pipeline of src/hqmts/execution.
pub mod Types
pub mod Pipeline
pub mod Converter
pub mod Service
pub mod Paper
mod Examples
mod PaperExamples
