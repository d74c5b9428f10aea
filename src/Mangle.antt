-- ===== src/Mangle.antt =====
-- The mangling of names, src/translation/src/hir_mangle/src.
pub mod Bytes
pub mod Decimal
pub mod Base63
pub mod Hex
pub mod Segment
pub mod Path
pub mod Ty
pub mod Name
pub mod Symbols
mod Tests
