-- ===== src/Evaluate/Error.antt =====
-- `EvalError` of error.rs, over the values that a `return` carries. A text is what `Unsupported`
-- and the labels hold.
use nitrate.Prelude.{String, Option}

pub data EvalError (V : Type 0) : Type 0 where
  break continue : Option String → EvalError V
  return : V → EvalError V
  division_by_zero modulo_by_zero shift_amount_error type_error loop_limit_exceeded : EvalError V
  call_depth_exceeded memory_limit_exceeded invalid_pointer out_of_bounds_access : EvalError V
  misaligned_access : EvalError V
  unsupported : String → EvalError V
  unsafe_in_safe_context abort : EvalError V
