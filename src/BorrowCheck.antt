-- ===== src/BorrowCheck.antt =====
-- The MIR borrow checker, src/translation/src/mir_borrow_check/src.
pub mod Function
pub mod Places
pub mod BitSet
pub mod Liveness
pub mod Flow
pub mod Error
pub mod State
pub mod Access
pub mod Check
pub mod Merge
pub mod Worklist
mod Examples
mod Tests
mod CheckTests
pub mod Invariant
pub mod WellFormed
