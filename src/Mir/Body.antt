-- ===== src/Mir/Body.antt =====
-- mir/src/operand.rs, rvalue.rs, stmt.rs and func.rs: what stands in a function and a module.
use nitrate.Prelude.{ℕ, Bool, String, List, [], ◌∷◌, ◌++◌, map, Option, none, some}
use nitrate.Mir.Ty.{MirType}
use nitrate.Mir.Place.{Place, LocalId}

abbrev pub BasicBlockId : Type 0
BasicBlockId = ℕ

-- A literal holds its bits: integers in two's complement, floats in IEEE 754.
pub data MirLiteral : Type 0 where
  unit : MirLiteral
  bool : Bool → MirLiteral
  i8 i16 i32 i64 i128 u8 u16 u32 u64 u128 f32 f64 : ℕ → MirLiteral
  usize : ℕ → ℕ → MirLiteral
  str : String → MirLiteral
  bstr : List ℕ → MirLiteral

pub data MirBinaryOp : Type 0 where
  add sub mul div mod_ and_ or_ xor_ shl shr rol ror : MirBinaryOp
  logic_and logic_or lt gt lte gte eq ne : MirBinaryOp

pub data MirUnaryOp : Type 0 where
  neg not_ : MirUnaryOp

pub data Operand : Type 0 where
  copy : Place → Operand
  move : Place → Operand
  constant : MirLiteral → Operand

pub data BorrowKind : Type 0 where
  shared mutable : BorrowKind

pub data NullaryOp : Type 0 where
  size_of align_of : NullaryOp

pub data AggregateKind : Type 0 where
  tuple : AggregateKind
  array : MirType → AggregateKind
  struct : String → List String → AggregateKind
  enum : String → String → ℕ → MirType → AggregateKind

pub data Rvalue : Type 0 where
  use_ : Operand → Rvalue
  ref : BorrowKind → Place → Rvalue
  len : Place → Rvalue
  cast : Operand → MirType → Rvalue
  binary_op : MirBinaryOp → Operand → Operand → Rvalue
  checked_binary_op : MirBinaryOp → Operand → Operand → Rvalue
  unary_op : MirUnaryOp → Operand → Rvalue
  nullary_op : NullaryOp → MirType → Rvalue
  aggregate : AggregateKind → List Operand → Rvalue

pub data Statement : Type 0 where
  assign : Place → Rvalue → Statement
  set_discriminant : Place → ℕ → Statement
  storage_live : LocalId → Statement
  storage_dead : LocalId → Statement

-- An arm of a switch: the value, the target and the operands passed to it.
pub record SwitchArm : Type 0 where
  pub value : ℕ
  pub target : BasicBlockId
  pub args : List Operand

pub data Terminator : Type 0 where
  goto : BasicBlockId → List Operand → Terminator
  if_ : Operand → BasicBlockId → List Operand → BasicBlockId → List Operand → Terminator
  switch_int : Operand → List SwitchArm → BasicBlockId → List Operand → Terminator
  return_ : Option Operand → Terminator
  unreachable : Terminator
  call : Operand → List Operand → Option Place → Option BasicBlockId → List Operand → Terminator

pub record BasicBlock : Type 0 where
  pub statements : List Statement
  pub terminator : Terminator
  pub args : List MirType
  pub arg_local_ids : List LocalId

-- The targets of the terminator.
unfoldable pub targets : Terminator → List BasicBlockId
targets (goto t _) = t ∷ []
targets (if_ _ t _ f _) = t ∷ f ∷ []
targets (switch_int _ arms o _) = map (λ a. a.target) arms ++ o ∷ []
targets (return_ _) = []
targets unreachable = []
targets (call _ _ _ (some t) _) = t ∷ []
targets (call _ _ _ none _) = []

-- `BasicBlock::successors`
unfoldable pub successors : BasicBlock → List BasicBlockId
unfolding targets
successors b = targets b.terminator

pub record LocalDecl : Type 0 where
  pub ty : MirType
  pub mutable : Bool

-- The initializer of a global is not read by the analyses.
pub record MirGlobal : Type 0 where
  pub name : String
  pub ty : MirType

pub record MirModule : Type 0 where
  pub globals : List MirGlobal
  pub string_globals : List (record { name : String; bytes : List ℕ })
