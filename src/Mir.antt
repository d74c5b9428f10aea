-- ===== src/Mir.antt =====
-- The mid-level IR: types, places, operands, statements, blocks and modules, after
-- src/translation/src/mir/src.
pub mod Ty
pub mod Place
pub mod Body
