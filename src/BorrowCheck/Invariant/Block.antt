-- ===== src/BorrowCheck/Invariant/Block.antt =====
-- The kept relation through rvalues, statements, terminators and whole blocks.
use nitrate.Prelude.{ℕ, ◌+◌, false, List, [], ◌∷◌, ◌++◌, Option, none, some, length, get_or}
use nitrate.Mir.Place.{Place, LocalId, local, place_has_eq}
use nitrate.Mir.Body.{
  Operand, copy, move, constant, Rvalue, Statement, Terminator, SwitchArm, MirModule,
}
use nitrate.BorrowCheck.Function.{FunctionData, block_at}
use nitrate.BorrowCheck.BitSet.{BitSet, with_capacity}
use nitrate.BorrowCheck.Flow.{LivenessInfo}
use nitrate.BorrowCheck.State.{State, Checker, Location}
use nitrate.BorrowCheck.Access.{activate_two_phase_borrows, check_returned_borrow}
use nitrate.BorrowCheck.Check.{
  process_rvalue, process_statement, process_terminator, process_arms, check_return,
  write_destination,
}
use nitrate.BorrowCheck.Worklist.{
  Edge, carry_args, carry_edges, propagate_edge_holders, process_statements, process_block,
  successor_edges,
}
use nitrate.BorrowCheck.Invariant.{
  Relation, Keeps, read_place-keeps, write_place-keeps, report_each-keeps, borrow_place-keeps,
  activate_all-keeps, process_operand-keeps, process_operands-keeps, carry_borrows-keeps,
}

module _ {f : FunctionData} {P : Relation} (k : Keeps f P) (m : MirModule) (l : LivenessInfo) where
  process_rvalue-keeps :
      (rv : Rvalue) (dest : Place) (loc : Location) (c : Checker) (s : State)
      → P c s
      → P (process_rvalue f m l rv dest loc c s).0 (process_rvalue f m l rv dest loc c s).1
  unfolding process_rvalue
  process_rvalue-keeps (Rvalue.use_ op) dest loc c s h =
      carry_borrows-keeps k m op dest _ _ (process_operand-keeps k op loc c s h)
  process_rvalue-keeps (Rvalue.ref region p) dest loc c s h =
      borrow_place-keeps k m l region p dest loc c s h
  process_rvalue-keeps (Rvalue.len p) dest loc c s h = read_place-keeps k p false loc c s h
  process_rvalue-keeps (Rvalue.cast value _) dest loc c s h =
      process_operand-keeps k value loc c s h
  process_rvalue-keeps (Rvalue.binary_op _ lhs rhs) dest loc c s h =
      process_operand-keeps k rhs loc _ _ (process_operand-keeps k lhs loc c s h)
  process_rvalue-keeps (Rvalue.checked_binary_op _ lhs rhs) dest loc c s h =
      process_operand-keeps k rhs loc _ _ (process_operand-keeps k lhs loc c s h)
  process_rvalue-keeps (Rvalue.unary_op _ operand) dest loc c s h =
      process_operand-keeps k operand loc c s h
  process_rvalue-keeps (Rvalue.nullary_op _ _) dest loc c s h = h
  process_rvalue-keeps (Rvalue.aggregate _ operands) dest loc c s h =
      process_operands-keeps k operands loc c s h

  pub process_statement-keeps :
      (st : Statement) (loc : Location) (c : Checker) (s : State)
      → P c s
      → P (process_statement f m l st loc c s).0 (process_statement f m l st loc c s).1
  unfolding process_statement
  process_statement-keeps (Statement.assign dest rvalue) loc c s h = k.on_init dest _ _ (
      process_rvalue-keeps rvalue dest loc _ _
        (k.on_overwrite dest _ s (write_place-keeps k dest loc c s h)))
  process_statement-keeps (Statement.set_discriminant p _) loc c s h =
      k.on_init p _ _ (k.on_overwrite p _ s (write_place-keeps k p loc c s h))
  process_statement-keeps (Statement.storage_live id) loc c s h = k.on_storage id c s h
  process_statement-keeps (Statement.storage_dead id) loc c s h = k.on_storage id c s h

  process_arms-keeps :
      (arms : List SwitchArm) (loc : Location) (c : Checker) (s : State)
      → P c s
      → P (process_arms f m l arms loc c s).0 (process_arms f m l arms loc c s).1
  unfolding process_arms
  process_arms-keeps [] loc c s h = h
  process_arms-keeps (a ∷ as_) loc c s h =
      process_arms-keeps as_ loc _ _ (process_operands-keeps k a.args loc c s h)

  check_return-keeps :
      (op : Operand) (loc : Location) (c : Checker) (s : State)
      → P c s
      → P (check_return f m l op loc c s) s
  unfolding check_return check_returned_borrow
  check_return-keeps (copy p) loc c s h = report_each-keeps k _ loc s.borrows c s h
  check_return-keeps (move p) loc c s h = report_each-keeps k _ loc s.borrows c s h
  check_return-keeps (constant _) loc c s h = h

  write_destination-keeps :
      (dest : Option Place) (loc : Location) (c : Checker) (s : State)
      → P c s
      → P (write_destination f m l dest loc c s).0 (write_destination f m l dest loc c s).1
  unfolding write_destination
  write_destination-keeps none loc c s h = h
  write_destination-keeps (some dest) loc c s h =
      k.on_init dest _ _ (k.on_overwrite dest _ s (write_place-keeps k dest loc c s h))

  pub process_terminator-keeps :
      (t : Terminator) (loc : Location) (c : Checker) (s : State)
      → P c s
      → P (process_terminator f m l t loc c s).0 (process_terminator f m l t loc c s).1
  unfolding process_terminator activate_two_phase_borrows
  process_terminator-keeps (Terminator.goto _ args) loc c s h =
      process_operands-keeps k args loc c s h
  process_terminator-keeps (Terminator.if_ condition _ t_args _ e_args) loc c s h =
      process_operands-keeps k (t_args ++ e_args) loc _ _
        (process_operand-keeps k condition loc c s h)
  process_terminator-keeps (Terminator.switch_int discr arms _ o_args) loc c s h =
      process_operands-keeps k o_args loc _ _
        (process_arms-keeps arms loc _ _ (process_operand-keeps k discr loc c s h))
  process_terminator-keeps (Terminator.return_ none) loc c s h = h
  process_terminator-keeps (Terminator.return_ (some op)) loc c s h =
      check_return-keeps op loc _ _ (process_operand-keeps k op loc c s h)
  process_terminator-keeps Terminator.unreachable loc c s h = h
  process_terminator-keeps (Terminator.call callee args destination _ target_args) loc c s h =
      process_operands-keeps k target_args loc _ _ (
        write_destination-keeps destination loc _ _ (
          activate_all-keeps k loc _ _ _
            (process_operands-keeps k args loc _ _ (process_operand-keeps k callee loc c s h))))

  carry_args-keeps :
      (ops : List Operand) (ids : List LocalId) (c : Checker) (s : State)
      → P c s
      → P c (carry_args f m l ops ids s)
  unfolding carry_args
  carry_args-keeps [] ids c s h = h
  carry_args-keeps (op ∷ ops) [] c s h = h
  carry_args-keeps (op ∷ ops) (id ∷ ids) c s h =
      carry_args-keeps ops ids c _ (carry_borrows-keeps k m op (local id) c s h)

  carry_edges-keeps :
      (es : List Edge) (c : Checker) (s : State) → P c s → P c (carry_edges f m l es s)
  unfolding carry_edges
  carry_edges-keeps [] c s h = h
  carry_edges-keeps (e ∷ es) c s h =
      carry_edges-keeps es c _ (carry_args-keeps e.args (block_at f e.succ).arg_local_ids c s h)

  process_statements-keeps :
      (ss : List Statement) (b : ℕ) (live : List BitSet) (i : ℕ) (c : Checker) (s : State)
      → P c s
      → P (process_statements f m l ss b live i c s).0 (process_statements f m l ss b live i c s).1
  unfolding process_statements
  process_statements-keeps [] b live i c s h = h
  process_statements-keeps (st ∷ ss) b live i c s h =
      process_statements-keeps ss b live (i + 1) _ _ (
        k.on_kill (get_or live (i + 1) (with_capacity 0)) _ _
          (process_statement-keeps st (record { block = b; stmt = i }) c s h))

  -- A relation that the primitive steps keep holds at the end of a block if it holds at its start.
  pub process_block-keeps :
      (b : ℕ) (c : Checker) (s : State)
      → P c s
      → P (process_block f m l b c s).0 (process_block f m l b c s).1
  unfolding process_block propagate_edge_holders
  process_block-keeps b c s h = k.on_kill (get_or l.live_out b (with_capacity 0)) _ _ (
      carry_edges-keeps (successor_edges f (block_at f b).terminator) _ _ (
        process_terminator-keeps (block_at f b).terminator
          (record { block = b; stmt = length (block_at f b).statements }) _ _
          (process_statements-keeps (block_at f b).statements b (get_or l.live_before b []) 0 c s
            h)))
