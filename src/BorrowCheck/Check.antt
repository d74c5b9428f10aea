-- ===== src/BorrowCheck/Check.antt =====
-- check.rs: what each operand, rvalue, statement and terminator does to the state.
use nitrate.Prelude.{true, false, List, [], ◌∷◌, ◌++◌, Option, none, some, if◌then◌else◌}
use nitrate.Prelude.Classes.{insert}
use nitrate.Mir.Place.{Place, local, place_has_eq}
use nitrate.Mir.Body.{
  Operand, copy, move, constant, Rvalue, Statement, Terminator, SwitchArm, MirModule,
}
use nitrate.BorrowCheck.Function.{FunctionData}
use nitrate.BorrowCheck.Places.{is_reference_typed}
use nitrate.BorrowCheck.Flow.{LivenessInfo}
use nitrate.BorrowCheck.State.{
  State, Checker, Location, kill_holders_overwritten, kill_borrows_at_local, mark_initialized,
  propagate_holders,
}
use nitrate.BorrowCheck.Access.{
  read_place, write_place, borrow_place, activate_two_phase_borrows, check_returned_borrow,
}

-- The checker with the state at the point that it has come to.
abbrev pub Point : Type 0
Point = Checker × State

unfoldable pub process_operand : Operand → Location → Checker → State → Point
process_operand (constant _) loc c s = (c, s)
process_operand (copy p) loc c s = read_place p false loc c s
process_operand (move p) loc c s = read_place p true loc c s

unfoldable pub process_operands : List Operand → Location → Checker → State → Point
process_operands [] loc c s = (c, s)
process_operands (op ∷ ops) loc c s =
    let (c', s') = process_operand op loc c s in process_operands ops loc c' s'

module _ (f : FunctionData) (m : MirModule) where
  -- Copying a value of a reference type carries its borrows to the destination.
  unfoldable pub carry_borrows : Operand → Place → State → State
  carry_borrows (copy p) dest s = if is_reference_typed f m p then propagate_holders p dest s else s
  carry_borrows (move p) dest s = if is_reference_typed f m p then propagate_holders p dest s else s
  carry_borrows (constant _) dest s = s

module _ (f : FunctionData) (m : MirModule) (liveness : LivenessInfo) where
  unfoldable pub process_rvalue : Rvalue → Place → Location → Checker → State → Point
  process_rvalue (Rvalue.use_ op) dest loc c s =
      let (c', s') = process_operand op loc c s in (c', carry_borrows f m op dest s')
  process_rvalue (Rvalue.ref region p) dest loc c s =
      borrow_place f m liveness region p dest loc c s
  process_rvalue (Rvalue.len p) dest loc c s = read_place p false loc c s
  process_rvalue (Rvalue.cast value _) dest loc c s = process_operand value loc c s
  process_rvalue (Rvalue.binary_op _ lhs rhs) dest loc c s =
      let (c', s') = process_operand lhs loc c s in process_operand rhs loc c' s'
  process_rvalue (Rvalue.checked_binary_op _ lhs rhs) dest loc c s =
      let (c', s') = process_operand lhs loc c s in process_operand rhs loc c' s'
  process_rvalue (Rvalue.unary_op _ operand) dest loc c s = process_operand operand loc c s
  process_rvalue (Rvalue.nullary_op _ _) dest loc c s = (c, s)
  process_rvalue (Rvalue.aggregate _ operands) dest loc c s = process_operands operands loc c s

  unfoldable pub process_statement : Statement → Location → Checker → State → Point
  process_statement (Statement.assign dest rvalue) loc c s =
      let c₁ = write_place dest loc c s in
      let s₁ = kill_holders_overwritten dest s in
      let (c₂, s₂) = process_rvalue rvalue dest loc c₁ s₁ in (c₂, mark_initialized dest s₂)
  process_statement (Statement.set_discriminant p _) loc c s =
      (write_place p loc c s, mark_initialized p (kill_holders_overwritten p s))
  process_statement (Statement.storage_live id) loc c s =
      (c, kill_borrows_at_local id (record s { uninit = insert s.uninit (local id) }))
  process_statement (Statement.storage_dead id) loc c s =
      (c, kill_borrows_at_local id (record s { uninit = insert s.uninit (local id) }))

  unfoldable pub process_arms : List SwitchArm → Location → Checker → State → Point
  process_arms [] loc c s = (c, s)
  process_arms (a ∷ as_) loc c s =
      let (c', s') = process_operands a.args loc c s in process_arms as_ loc c' s'

  unfoldable pub check_return : Operand → Location → Checker → State → Checker
  check_return (copy p) loc c s = check_returned_borrow p loc c s
  check_return (move p) loc c s = check_returned_borrow p loc c s
  check_return (constant _) loc c s = c

  unfoldable pub write_destination : Option Place → Location → Checker → State → Point
  write_destination none loc c s = (c, s)
  write_destination (some dest) loc c s =
      (write_place dest loc c s, mark_initialized dest (kill_holders_overwritten dest s))

  unfoldable pub process_terminator : Terminator → Location → Checker → State → Point
  process_terminator (Terminator.goto _ args) loc c s = process_operands args loc c s
  process_terminator (Terminator.if_ condition _ t_args _ e_args) loc c s =
      let (c', s') = process_operand condition loc c s in
      process_operands (t_args ++ e_args) loc c' s'
  process_terminator (Terminator.switch_int discr arms _ o_args) loc c s =
      let (c₁, s₁) = process_operand discr loc c s in
      let (c₂, s₂) = process_arms arms loc c₁ s₁ in process_operands o_args loc c₂ s₂
  process_terminator (Terminator.return_ none) loc c s = (c, s)
  process_terminator (Terminator.return_ (some op)) loc c s =
      let (c', s') = process_operand op loc c s in (check_return op loc c' s', s')
  process_terminator Terminator.unreachable loc c s = (c, s)
  process_terminator (Terminator.call callee args destination _ target_args) loc c s =
      let (c₁, s₁) = process_operand callee loc c s in
      let (c₂, s₂) = process_operands args loc c₁ s₁ in
      let (c₃, s₃) = activate_two_phase_borrows args loc c₂ s₂ in
      let (c₄, s₄) = write_destination destination loc c₃ s₃ in
      process_operands target_args loc c₄ s₄
