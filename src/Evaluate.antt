-- ===== src/Evaluate.antt =====
-- The evaluator of the HIR, src/translation/src/hir_evaluate/src: its abstract memory.
pub mod Error
pub mod Memory
mod Tests
