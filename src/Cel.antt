-- ===== src/Cel.antt =====
-- internal/cel: compiled CEL expressions that mutate a PipelineRun.
pub mod Types
pub mod Values
pub mod Functions
pub mod Compiler
pub mod Evaluator
pub mod Mutator
