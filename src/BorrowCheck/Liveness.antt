-- ===== src/BorrowCheck/Liveness.antt =====
-- liveness.rs: use and def sets, and the backward data flow over the blocks. A local is read where
-- a place that names it is read; a borrow does not read its place.
pub mod Defs
use nitrate.Prelude.{ℕ, ◌+◌, List, [], ◌∷◌, ◌++◌, none, some, get_or, set}
use nitrate.Mir.Place.{Place, local, static_, deref, field, index, downcast}
use nitrate.Mir.Body.{Operand, copy, move, constant, Rvalue, Statement, Terminator, SwitchArm}
use nitrate.BorrowCheck.Function.{FunctionData, idx_of}
use nitrate.BorrowCheck.Places.{root_place}
use nitrate.BorrowCheck.BitSet.{BitSet, insert}

pub record UseDef : Type 0 where
  pub uses : BitSet
  pub defs : BitSet

-- What the `collect` functions write: the sets of the statement at hand, and the counts and the
-- call arguments of the function so far.
pub record Collected : Type 0 where
  pub ud : UseDef
  pub use_counts : List ℕ
  pub call_arg_uses : BitSet

unfoldable pub add_use : Collected → ℕ → Collected
add_use c idx = record c {
  ud = record { uses = insert c.ud.uses idx; defs = c.ud.defs };
  use_counts = set c.use_counts idx (get_or c.use_counts idx 0 + 1);
}

unfoldable pub add_def : Collected → ℕ → Collected
add_def c idx = record c { ud = record { uses = c.ud.uses; defs = insert c.ud.defs idx } }

module _ (f : FunctionData) where
  unfoldable pub collect_place_locals : Place → Collected → Collected
  collect_place_locals (local id) c = add_use c (idx_of f id)
  collect_place_locals (static_ _) c = c
  collect_place_locals (deref base) c = collect_place_locals base c
  collect_place_locals (field base _) c = collect_place_locals base c
  collect_place_locals (downcast base _) c = collect_place_locals base c
  collect_place_locals (index base i) c = collect_place_locals i (collect_place_locals base c)

  -- Only the root of an argument that is a place counts.
  unfoldable root_call_arg : Place → Collected → Collected
  root_call_arg (local id) c = record c { call_arg_uses = insert c.call_arg_uses (idx_of f id) }
  root_call_arg _ c = c

  unfoldable pub mark_place_call_arg : Place → Collected → Collected
  unfolding root_call_arg
  mark_place_call_arg p c = root_call_arg (root_place p) c

  unfoldable pub collect_operand_usedef : Operand → Collected → Collected
  collect_operand_usedef (copy p) c = collect_place_locals p c
  collect_operand_usedef (move p) c = collect_place_locals p c
  collect_operand_usedef (constant _) c = c

  unfoldable pub collect_operands : List Operand → Collected → Collected
  collect_operands [] c = c
  collect_operands (op ∷ ops) c = collect_operands ops (collect_operand_usedef op c)

  unfoldable pub collect_rvalue_usedef : Rvalue → Collected → Collected
  collect_rvalue_usedef (Rvalue.use_ op) c = collect_operand_usedef op c
  collect_rvalue_usedef (Rvalue.ref _ _) c = c
  collect_rvalue_usedef (Rvalue.len p) c = collect_place_locals p c
  collect_rvalue_usedef (Rvalue.cast value _) c = collect_operand_usedef value c
  collect_rvalue_usedef (Rvalue.binary_op _ lhs rhs) c =
      collect_operand_usedef rhs (collect_operand_usedef lhs c)
  collect_rvalue_usedef (Rvalue.checked_binary_op _ lhs rhs) c =
      collect_operand_usedef rhs (collect_operand_usedef lhs c)
  collect_rvalue_usedef (Rvalue.unary_op _ operand) c = collect_operand_usedef operand c
  collect_rvalue_usedef (Rvalue.nullary_op _ _) c = c
  collect_rvalue_usedef (Rvalue.aggregate _ operands) c = collect_operands operands c

  -- The destination of an assignment: a local is defined, and a projection reads nothing.
  unfoldable define_local : Place → Collected → Collected
  define_local (local id) c = add_def c (idx_of f id)
  define_local _ c = c

  -- The place of a discriminant or of a call's result: a local is defined, and the locals of a
  -- projection are read.
  unfoldable define_or_use : Place → Collected → Collected
  define_or_use (local id) c = add_def c (idx_of f id)
  define_or_use p c = collect_place_locals p c

  unfoldable pub collect_stmt_usedef : Statement → Collected → Collected
  unfolding define_local define_or_use
  collect_stmt_usedef (Statement.assign dest rvalue) c =
      collect_rvalue_usedef rvalue (define_local dest c)
  collect_stmt_usedef (Statement.set_discriminant p _) c = define_or_use p c
  collect_stmt_usedef (Statement.storage_live _) c = c
  collect_stmt_usedef (Statement.storage_dead _) c = c

  unfoldable collect_arms : List SwitchArm → Collected → Collected
  collect_arms [] c = c
  collect_arms (a ∷ as_) c = collect_arms as_ (collect_operands a.args c)

  unfoldable mark_operand : Operand → Collected → Collected
  mark_operand (copy p) c = mark_place_call_arg p c
  mark_operand (move p) c = mark_place_call_arg p c
  mark_operand (constant _) c = c

  unfoldable collect_call_args : List Operand → Collected → Collected
  collect_call_args [] c = c
  collect_call_args (op ∷ ops) c =
      collect_call_args ops (mark_operand op (collect_operand_usedef op c))

  unfoldable pub collect_term_usedef : Terminator → Collected → Collected
  unfolding collect_arms mark_operand collect_call_args define_or_use
  collect_term_usedef (Terminator.goto _ args) c = collect_operands args c
  collect_term_usedef (Terminator.if_ condition _ true_args _ false_args) c =
      collect_operands (true_args ++ false_args) (collect_operand_usedef condition c)
  collect_term_usedef (Terminator.switch_int discr arms _ otherwise_args) c =
      collect_operands otherwise_args (collect_arms arms (collect_operand_usedef discr c))
  collect_term_usedef (Terminator.return_ (some op)) c = collect_operand_usedef op c
  collect_term_usedef (Terminator.return_ none) c = c
  collect_term_usedef Terminator.unreachable c = c
  collect_term_usedef (Terminator.call callee args destination _ target_args) c =
      let c₁ = collect_call_args args (collect_operand_usedef callee c) in
      let c₂ : Collected = elim destination [ some dest ↦ define_or_use dest c₁ | none ↦ c₁ ] in
      collect_operands target_args c₂
