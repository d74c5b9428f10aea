-- ===== src/BorrowCheck/Flow.antt =====
-- `compute_liveness` of liveness.rs: the use and def sets of every statement, and the rounds of the
-- backward data flow until nothing changes.
pub mod Visit
pub mod Order
pub mod Growth
pub mod Progress
pub mod Termination
pub mod Equations
pub mod Total
pub mod Solution
pub mod Transfer
use nitrate.Prelude.{
  ℕ, zero, suc, ◌+◌, Bool, true, false, not, ◌&&◌, ◌||◌, List, [], ◌∷◌, Option, none, some, length,
  get_or, set, replicate, if◌then◌else◌,
}
use nitrate.Mir.Body.{Statement, Terminator, BasicBlock}
use nitrate.BorrowCheck.Function.{FunctionData, successor_indices}
use nitrate.BorrowCheck.BitSet.{BitSet, with_capacity, union_with, subtract, bit_set_eq}
use nitrate.BorrowCheck.Liveness.{UseDef, Collected, collect_stmt_usedef, collect_term_usedef}

pub record LivenessInfo : Type 0 where
  pub live_before : List (List BitSet)
  pub live_out : List BitSet
  pub use_counts : List ℕ
  pub call_arg_uses : BitSet

-- `UseDef::new`
unfoldable pub fresh : ℕ → UseDef
fresh n = record { uses = with_capacity n; defs = with_capacity n }

module _ (f : FunctionData) where
  abbrev pub nlocals : ℕ
  nlocals = length f.locals

  -- The sets of the statements of a block and, last, of its terminator.
  unfoldable pub block_usedefs : List Statement → Terminator → Collected → List UseDef × Collected
  block_usedefs [] term c =
      let c' = collect_term_usedef f term (record c { ud = fresh nlocals }) in (c'.ud ∷ [], c')
  block_usedefs (s ∷ ss) term c =
      let c' = collect_stmt_usedef f s (record c { ud = fresh nlocals }) in
      let (rest, c'') = block_usedefs ss term c' in (c'.ud ∷ rest, c'')

  unfoldable pub function_usedefs : List BasicBlock → Collected → List (List UseDef) × Collected
  function_usedefs [] c = ([], c)
  function_usedefs (b ∷ bs) c =
      let (here, c') = block_usedefs b.statements b.terminator c in
      let (rest, c'') = function_usedefs bs c' in (here ∷ rest, c'')

-- `before = uses; before.union_with(live); before.subtract(defs)`
unfoldable pub transfer : UseDef → BitSet → BitSet
transfer u live = subtract (union_with u.uses live) u.defs

-- `live_before` of each statement from `s` on, and what is live before the first of them.
unfoldable pub backward : List UseDef → BitSet → List BitSet × BitSet
backward [] live = ([], live)
backward (u ∷ us) live =
    let (rest, after) = backward us live in let before = transfer u after in (before ∷ rest, before)

-- The state of the loop. `changed` is of the round at hand.
pub record Flow : Type 0 where
  pub live_in : List BitSet
  pub live_out : List BitSet
  pub live_before : List (List BitSet)
  pub changed : Bool

unfoldable pub sets_eq : List BitSet → List BitSet → Bool
sets_eq [] [] = true
sets_eq (s ∷ ss) (t ∷ ts) = bit_set_eq s t && sets_eq ss ts
sets_eq _ _ = false

module _ (f : FunctionData) (usedefs : List (List UseDef)) where
  unfoldable pub union_successors : List ℕ → List BitSet → BitSet → BitSet
  union_successors [] live_in out = out
  union_successors (succ ∷ ss) live_in out =
      union_successors ss live_in (union_with out (get_or live_in succ (with_capacity (nlocals f))))

  -- The body of the loop over the blocks.
  unfoldable pub visit_block : ℕ → Flow → Flow
  visit_block b s =
      let empty = with_capacity (nlocals f) in
      let new_out = union_successors (successor_indices f b) s.live_in empty in
      let same_out = bit_set_eq new_out (get_or s.live_out b empty) in
      let live_out = if same_out then s.live_out else set s.live_out b new_out in
      let (per_stmt, live) = backward (get_or usedefs b []) (get_or live_out b empty) in
      let same_before = sets_eq (get_or s.live_before b []) per_stmt in
      record {
        live_in = set s.live_in b live;
        live_out = live_out;
        live_before = if same_before then s.live_before else set s.live_before b per_stmt;
        changed = s.changed || not same_out || not same_before;
      }

  unfoldable pub visit_blocks : ℕ → ℕ → Flow → Flow
  visit_blocks zero b s = s
  visit_blocks (suc left) b s = visit_blocks left (b + 1) (visit_block b s)

  unfoldable pub round : Flow → Flow
  round s = visit_blocks (length f.blocks) 0 (record s { changed = false })

  -- The outer loop, for so many rounds at most; `none` where they are not enough.
  unfoldable pub rounds : ℕ → Flow → Option Flow
  rounds zero s = none
  rounds (suc fuel) s =
      let s' = round s in let rest = rounds fuel s' in if s'.changed then rest else some s'

unfoldable pub initial_flow : FunctionData → Flow
initial_flow f =
    let nblocks = length f.blocks in
    record {
      live_in = replicate nblocks (with_capacity (nlocals f));
      live_out = replicate nblocks (with_capacity (nlocals f));
      live_before = replicate nblocks [];
      changed = false;
    }

unfoldable pub initial_collected : FunctionData → Collected
initial_collected f = record {
  ud = fresh (nlocals f);
  use_counts = replicate (nlocals f) 0;
  call_arg_uses = with_capacity (nlocals f);
}

unfoldable pub compute_liveness : ℕ → FunctionData → Option LivenessInfo
compute_liveness fuel f =
    let (usedefs, c) = function_usedefs f f.blocks (initial_collected f) in
    elim (rounds f usedefs fuel (initial_flow f)) [
      | none ↦ none
      | some s ↦ some (record {
        live_before = s.live_before;
        live_out = s.live_out;
        use_counts = c.use_counts;
        call_arg_uses = c.call_arg_uses;
      })
    ]
