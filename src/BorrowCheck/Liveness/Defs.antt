-- ===== src/BorrowCheck/Liveness/Defs.antt =====
-- The def sets that the collect functions of liveness.rs write hold 64-bit words.
use nitrate.Prelude.{ℕ, List, [], ◌∷◌, ◌++◌, none, some}
use nitrate.Mir.Place.{Place, local, static_, deref, field, index, downcast}
use nitrate.Mir.Body.{Operand, copy, move, constant, Rvalue, Statement, Terminator, SwitchArm}
use nitrate.BorrowCheck.Function.{FunctionData, idx_of}
use nitrate.BorrowCheck.Places.{root_place}
use nitrate.BorrowCheck.BitSet.Laws.{IsBitSet}
use nitrate.BorrowCheck.BitSet.Bounds.{insert-IsBitSet}
use nitrate.BorrowCheck.Liveness.{
  Collected, add_use, add_def, collect_place_locals, root_call_arg, mark_place_call_arg,
  collect_operand_usedef, collect_operands, collect_rvalue_usedef, define_local, define_or_use,
  collect_stmt_usedef, collect_arms, mark_operand, collect_call_args, collect_term_usedef,
}

abbrev pub HasDefs : Collected → Type 0
HasDefs c = IsBitSet c.ud.defs

add_use-HasDefs : (c : Collected) (i : ℕ) → HasDefs c → HasDefs (add_use c i)
unfolding add_use
add_use-HasDefs c i h = h

add_def-HasDefs : (c : Collected) (i : ℕ) → HasDefs c → HasDefs (add_def c i)
unfolding add_def
add_def-HasDefs c i h = insert-IsBitSet c.ud.defs i h

module _ (f : FunctionData) where
  collect_place_locals-HasDefs :
      (p : Place) (c : Collected) → HasDefs c → HasDefs (collect_place_locals f p c)
  unfolding collect_place_locals
  collect_place_locals-HasDefs (local id) c h = add_use-HasDefs c (idx_of f id) h
  collect_place_locals-HasDefs (static_ _) c h = h
  collect_place_locals-HasDefs (deref base) c h = collect_place_locals-HasDefs base c h
  collect_place_locals-HasDefs (field base _) c h = collect_place_locals-HasDefs base c h
  collect_place_locals-HasDefs (downcast base _) c h = collect_place_locals-HasDefs base c h
  collect_place_locals-HasDefs (index base i) c h =
      collect_place_locals-HasDefs i (collect_place_locals f base c)
        (collect_place_locals-HasDefs base c h)

  root_call_arg-HasDefs : (p : Place) (c : Collected) → HasDefs c → HasDefs (root_call_arg f p c)
  unfolding root_call_arg
  root_call_arg-HasDefs (local id) c h = h
  root_call_arg-HasDefs (static_ _) c h = h
  root_call_arg-HasDefs (deref _) c h = h
  root_call_arg-HasDefs (field _ _) c h = h
  root_call_arg-HasDefs (index _ _) c h = h
  root_call_arg-HasDefs (downcast _ _) c h = h

  collect_operand_usedef-HasDefs :
      (op : Operand) (c : Collected) → HasDefs c → HasDefs (collect_operand_usedef f op c)
  unfolding collect_operand_usedef
  collect_operand_usedef-HasDefs (copy p) c h = collect_place_locals-HasDefs p c h
  collect_operand_usedef-HasDefs (move p) c h = collect_place_locals-HasDefs p c h
  collect_operand_usedef-HasDefs (constant _) c h = h

  collect_operands-HasDefs :
      (ops : List Operand) (c : Collected) → HasDefs c → HasDefs (collect_operands f ops c)
  unfolding collect_operands
  collect_operands-HasDefs [] c h = h
  collect_operands-HasDefs (op ∷ ops) c h =
      collect_operands-HasDefs ops (collect_operand_usedef f op c)
        (collect_operand_usedef-HasDefs op c h)

  collect_rvalue_usedef-HasDefs :
      (r : Rvalue) (c : Collected) → HasDefs c → HasDefs (collect_rvalue_usedef f r c)
  unfolding collect_rvalue_usedef
  collect_rvalue_usedef-HasDefs (Rvalue.use_ op) c h = collect_operand_usedef-HasDefs op c h
  collect_rvalue_usedef-HasDefs (Rvalue.ref _ _) c h = h
  collect_rvalue_usedef-HasDefs (Rvalue.len p) c h = collect_place_locals-HasDefs p c h
  collect_rvalue_usedef-HasDefs (Rvalue.cast value _) c h = collect_operand_usedef-HasDefs value c h
  collect_rvalue_usedef-HasDefs (Rvalue.binary_op _ lhs rhs) c h =
      collect_operand_usedef-HasDefs rhs (collect_operand_usedef f lhs c)
        (collect_operand_usedef-HasDefs lhs c h)
  collect_rvalue_usedef-HasDefs (Rvalue.checked_binary_op _ lhs rhs) c h =
      collect_operand_usedef-HasDefs rhs (collect_operand_usedef f lhs c)
        (collect_operand_usedef-HasDefs lhs c h)
  collect_rvalue_usedef-HasDefs (Rvalue.unary_op _ operand) c h =
      collect_operand_usedef-HasDefs operand c h
  collect_rvalue_usedef-HasDefs (Rvalue.nullary_op _ _) c h = h
  collect_rvalue_usedef-HasDefs (Rvalue.aggregate _ operands) c h =
      collect_operands-HasDefs operands c h

  define_local-HasDefs : (p : Place) (c : Collected) → HasDefs c → HasDefs (define_local f p c)
  unfolding define_local
  define_local-HasDefs (local id) c h = add_def-HasDefs c (idx_of f id) h
  define_local-HasDefs (static_ _) c h = h
  define_local-HasDefs (deref _) c h = h
  define_local-HasDefs (field _ _) c h = h
  define_local-HasDefs (index _ _) c h = h
  define_local-HasDefs (downcast _ _) c h = h

  define_or_use-HasDefs : (p : Place) (c : Collected) → HasDefs c → HasDefs (define_or_use f p c)
  unfolding define_or_use
  define_or_use-HasDefs (local id) c h = add_def-HasDefs c (idx_of f id) h
  define_or_use-HasDefs (static_ n) c h = collect_place_locals-HasDefs (static_ n) c h
  define_or_use-HasDefs (deref b) c h = collect_place_locals-HasDefs (deref b) c h
  define_or_use-HasDefs (field b n) c h = collect_place_locals-HasDefs (field b n) c h
  define_or_use-HasDefs (index b i) c h = collect_place_locals-HasDefs (index b i) c h
  define_or_use-HasDefs (downcast b n) c h = collect_place_locals-HasDefs (downcast b n) c h

  pub collect_stmt_usedef-HasDefs :
      (s : Statement) (c : Collected) → HasDefs c → HasDefs (collect_stmt_usedef f s c)
  unfolding collect_stmt_usedef
  collect_stmt_usedef-HasDefs (Statement.assign dest rvalue) c h =
      collect_rvalue_usedef-HasDefs rvalue (define_local f dest c) (define_local-HasDefs dest c h)
  collect_stmt_usedef-HasDefs (Statement.set_discriminant p _) c h = define_or_use-HasDefs p c h
  collect_stmt_usedef-HasDefs (Statement.storage_live _) c h = h
  collect_stmt_usedef-HasDefs (Statement.storage_dead _) c h = h

  collect_arms-HasDefs :
      (arms : List SwitchArm) (c : Collected) → HasDefs c → HasDefs (collect_arms f arms c)
  unfolding collect_arms
  collect_arms-HasDefs [] c h = h
  collect_arms-HasDefs (a ∷ as_) c h =
      collect_arms-HasDefs as_ (collect_operands f a.args c) (collect_operands-HasDefs a.args c h)

  mark_operand-HasDefs : (op : Operand) (c : Collected) → HasDefs c → HasDefs (mark_operand f op c)
  unfolding mark_operand mark_place_call_arg
  mark_operand-HasDefs (copy p) c h = root_call_arg-HasDefs (root_place p) c h
  mark_operand-HasDefs (move p) c h = root_call_arg-HasDefs (root_place p) c h
  mark_operand-HasDefs (constant _) c h = h

  collect_call_args-HasDefs :
      (ops : List Operand) (c : Collected) → HasDefs c → HasDefs (collect_call_args f ops c)
  unfolding collect_call_args
  collect_call_args-HasDefs [] c h = h
  collect_call_args-HasDefs (op ∷ ops) c h =
      collect_call_args-HasDefs ops (mark_operand f op (collect_operand_usedef f op c)) (
        mark_operand-HasDefs op (collect_operand_usedef f op c)
          (collect_operand_usedef-HasDefs op c h))

  pub collect_term_usedef-HasDefs :
      (t : Terminator) (c : Collected) → HasDefs c → HasDefs (collect_term_usedef f t c)
  unfolding collect_term_usedef
  collect_term_usedef-HasDefs (Terminator.goto _ args) c h = collect_operands-HasDefs args c h
  collect_term_usedef-HasDefs (Terminator.if_ condition _ true_args _ false_args) c h =
      collect_operands-HasDefs (true_args ++ false_args) (collect_operand_usedef f condition c)
        (collect_operand_usedef-HasDefs condition c h)
  collect_term_usedef-HasDefs (Terminator.switch_int discr arms _ otherwise_args) c h =
      collect_operands-HasDefs otherwise_args
        (collect_arms f arms (collect_operand_usedef f discr c))
        (collect_arms-HasDefs arms (collect_operand_usedef f discr c)
          (collect_operand_usedef-HasDefs discr c h))
  collect_term_usedef-HasDefs (Terminator.return_ (some op)) c h =
      collect_operand_usedef-HasDefs op c h
  collect_term_usedef-HasDefs (Terminator.return_ none) c h = h
  collect_term_usedef-HasDefs Terminator.unreachable c h = h
  collect_term_usedef-HasDefs (Terminator.call callee args (some dest) _ target_args) c h =
      let c₁ = collect_call_args f args (collect_operand_usedef f callee c) in
      let h₁ =
        collect_call_args-HasDefs args (collect_operand_usedef f callee c)
          (collect_operand_usedef-HasDefs callee c h) in
      collect_operands-HasDefs target_args (define_or_use f dest c₁)
        (define_or_use-HasDefs dest c₁ h₁)
  collect_term_usedef-HasDefs (Terminator.call callee args none _ target_args) c h =
      collect_operands-HasDefs target_args
        (collect_call_args f args (collect_operand_usedef f callee c))
        (collect_call_args-HasDefs args (collect_operand_usedef f callee c)
          (collect_operand_usedef-HasDefs callee c h))
