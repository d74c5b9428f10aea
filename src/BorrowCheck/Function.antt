-- ===== src/BorrowCheck/Function.antt =====
-- `FunctionData` of check.rs: the snapshot of a function's body that the analyses read.
use nitrate.Prelude.{
  ℕ, ◌+◌, Bool, false, String, List, [], ◌∷◌, map, Option, none, some, length, get_elem?, get_or,
  if◌then◌else◌, ◌==◌,
}
use nitrate.Prelude.Text.{print_usize}
use nitrate.Mir.Ty.{MirType}
use nitrate.Mir.Place.{LocalId}
use nitrate.Mir.Body.{BasicBlock, BasicBlockId, LocalDecl, Terminator, successors}
use mathlib.Core.Option
use Prim.Native.String

pub record FunctionData : Type 0 where
  pub locals : List LocalDecl
  pub local_ids : List LocalId
  pub arg_count : ℕ
  pub blocks : List BasicBlock
  pub entry : ℕ
  -- the keys of `id_to_idx`, by position
  pub block_ids : List BasicBlockId

-- `iter().enumerate().collect::<HashMap>()`, looked up: the last position of an id counts.
unfoldable pub position : List ℕ → ℕ → Option ℕ
position [] id = none
position (x ∷ xs) id =
    let here : Option ℕ = if x == id then some 0 else none in
    elim (position xs id) [ some i ↦ some (i + 1) | none ↦ here ]

-- The code panics on an id that is no local of the function. Here that is the position behind
-- the last local, where no list of locals or sets has an entry.
unfoldable pub idx_of : FunctionData → LocalId → ℕ
idx_of f id = Option.get_or (position f.local_ids id) (length f.local_ids)

unfoldable pub local_ty : FunctionData → LocalId → Option MirType
local_ty f id =
    Option.map (λ (l : LocalDecl). l.ty)
      (Option.bind (position f.local_ids id) (get_elem? f.locals))

unfoldable pub local_is_mutable : FunctionData → LocalId → Bool
local_is_mutable f id = elim (Option.bind (position f.local_ids id) (get_elem? f.locals)) [
  | some l ↦ l.mutable
  | none ↦ false
]

unfoldable pub local_display_name : LocalId → String
local_display_name id = String.◌++◌ "_" (print_usize id)

-- The code panics on an id that is no block. Here that is the position behind the last block.
unfoldable pub block_idx : FunctionData → BasicBlockId → ℕ
block_idx f id = Option.get_or (position f.block_ids id) (length f.block_ids)

-- `blocks[b]`; the code panics out of range, and here the block is an empty one that ends nowhere.
abbrev pub no_block : BasicBlock
no_block = record {
  statements = [];
  terminator = Terminator.unreachable;
  args = [];
  arg_local_ids = [];
}

unfoldable pub block_at : FunctionData → ℕ → BasicBlock
block_at f b = get_or f.blocks b no_block

unfoldable pub successor_indices : FunctionData → ℕ → List ℕ
successor_indices f b = map (block_idx f) (successors (block_at f b))
