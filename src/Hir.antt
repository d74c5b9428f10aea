-- ===== src/Hir.antt =====
-- The HIR, src/translation/src/hir/src: literals and their arithmetic.
pub mod Lit
pub mod LitOps
pub mod Ty
mod Tests
