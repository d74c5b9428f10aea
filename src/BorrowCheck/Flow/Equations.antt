-- ===== src/BorrowCheck/Flow/Equations.antt =====
-- The data flow equations of the liveness, local by local, without the bit sets and the passes of
-- `compute_liveness`.
use nitrate.Prelude.{
  ℕ, zero, suc, ◌<◌, not, ◌&&◌, ◌||◌, List, [], ◌∷◌, any, length, get_or, ◌≡◌, refl, ◌∙◌, ap, arith,
}
use nitrate.Mir.Body.{Statement, Terminator, BasicBlock}
use nitrate.BorrowCheck.Function.{FunctionData, successor_indices}
use nitrate.BorrowCheck.BitSet.{BitSet, contains, union_with, with_capacity}
use nitrate.BorrowCheck.BitSet.Laws.{IsBitSet, contains-union_with, contains-with_capacity}
use nitrate.BorrowCheck.BitSet.Bounds.{with_capacity-IsBitSet}
use nitrate.BorrowCheck.Liveness.{UseDef, Collected}
use nitrate.BorrowCheck.Liveness.Defs.{collect_stmt_usedef-HasDefs, collect_term_usedef-HasDefs}
use nitrate.BorrowCheck.Flow.{
  LivenessInfo, nlocals, fresh, transfer, backward, union_successors, block_usedefs,
  function_usedefs, initial_collected,
}
use nitrate.BorrowCheck.Flow.Transfer.{contains-transfer}
use nitrate.BorrowCheck.Flow.Visit.{empty_set}
use nitrate.BorrowCheck.Flow.Solution.{usedefs_of, Solves}

-- `Backs out us befores live`: with `out` live behind the statements whose uses and defs are `us`,
-- the sets `befores` are live before each of them, and `live` before the first. A local is live
-- before a statement exactly where the statement uses it, or it is live behind the statement, and
-- the statement does not define it.
pub data Backs (out : BitSet) : List UseDef → List BitSet → BitSet → Type 0 where
  behind_all : Backs out [] [] out
  step :
      {us : List UseDef} {befores : List BitSet} {after : BitSet} (u : UseDef) (before : BitSet)
      → Backs out us befores after
      → ((j : ℕ)
          → contains before j
            ≡ ((contains u.uses j || contains after j) && not (contains u.defs j)))
      → Backs out (u ∷ us) (before ∷ befores) before

-- A local is live behind a block exactly where it is live at the start of some successor.
abbrev pub IsLiveOut : FunctionData → LivenessInfo → List BitSet → ℕ → Type 0
IsLiveOut f l live_in b =
    (j : ℕ)
    → contains (get_or l.live_out b (with_capacity (nlocals f))) j
      ≡ any (λ succ. contains (get_or live_in succ (with_capacity (nlocals f))) j)
          (successor_indices f b)

-- Both equations, at every block.
abbrev pub IsLiveness : FunctionData → LivenessInfo → List BitSet → Type 0
IsLiveness f l live_in =
    (b : ℕ)
    → b < length f.blocks
    → IsLiveOut f l live_in b
      × Backs (get_or l.live_out b (with_capacity (nlocals f))) (get_or (usedefs_of f) b [])
          (get_or l.live_before b []) (get_or live_in b (with_capacity (nlocals f)))

abbrev AllDefs : List UseDef → Type 0
AllDefs [] = Unit
AllDefs (u ∷ us) = IsBitSet u.defs × AllDefs us

abbrev AllBlocks : List (List UseDef) → Type 0
AllBlocks [] = Unit
AllBlocks (us ∷ uss) = AllDefs us × AllBlocks uss

backward-Backs :
    (us : List UseDef) (out : BitSet)
    → AllDefs us
    → Backs out us (backward us out).0 (backward us out).1
unfolding backward
backward-Backs [] out h = behind_all
backward-Backs (u ∷ us) out h =
    step u (transfer u (backward us out).1) (backward-Backs us out h.1)
      (λ j. contains-transfer u (backward us out).1 j h.0)

union_successors-any :
    (f : FunctionData) (usedefs : List (List UseDef)) (succs : List ℕ) (live_in : List BitSet)
    (out : BitSet) (j : ℕ)
    → contains (union_successors f usedefs succs live_in out) j ≡ (
        contains out j
        || any (λ succ. contains (get_or live_in succ (with_capacity (nlocals f))) j) succs)
unfolding union_successors
union_successors-any f usedefs [] live_in out j = ground arith
union_successors-any f usedefs (succ ∷ ss) live_in out j =
    let here = get_or live_in succ (with_capacity (nlocals f)) in
    let later = union_successors-any f usedefs ss live_in (union_with out here) j in
    ground (arith, later, contains-union_with out here j)

module _ (f : FunctionData) where
  block_usedefs-AllDefs :
      (ss : List Statement) (term : Terminator) (c : Collected)
      → AllDefs (block_usedefs f ss term c).0
  unfolding block_usedefs fresh
  block_usedefs-AllDefs [] term c =
      (collect_term_usedef-HasDefs f term _ (with_capacity-IsBitSet (nlocals f)), tt)
  block_usedefs-AllDefs (s ∷ ss) term c = (
    collect_stmt_usedef-HasDefs f s _ (with_capacity-IsBitSet (nlocals f)),
    block_usedefs-AllDefs ss term _,
  )

  function_usedefs-AllBlocks :
      (bs : List BasicBlock) (c : Collected) → AllBlocks (function_usedefs f bs c).0
  unfolding function_usedefs
  function_usedefs-AllBlocks [] c = tt
  function_usedefs-AllBlocks (b ∷ bs) c =
      (block_usedefs-AllDefs b.statements b.terminator c, function_usedefs-AllBlocks bs _)

AllBlocks-get_or : (uss : List (List UseDef)) (b : ℕ) → AllBlocks uss → AllDefs (get_or uss b [])
AllBlocks-get_or [] b h = tt
AllBlocks-get_or (us ∷ uss) zero h = h.0
AllBlocks-get_or (us ∷ uss) (suc b) h = AllBlocks-get_or uss b h.1

-- What solves the equations of the code solves those of the liveness.
pub Solves-IsLiveness :
    (f : FunctionData) (l : LivenessInfo) (live_in : List BitSet)
    → Solves f l live_in
    → IsLiveness f l live_in
Solves-IsLiveness f l live_in h b inside =
    let (out, befores, start) = h b inside in
    let defs =
      AllBlocks-get_or (usedefs_of f) b
        (function_usedefs-AllBlocks f f.blocks (initial_collected f)) in
    (
      λ j.
          let joined =
            union_successors-any f (usedefs_of f) (successor_indices f b) live_in
              (with_capacity (nlocals f)) j in
          ap (λ s. contains s j) out ∙ (joined ∙ rw (contains-with_capacity (nlocals f) j) refl),
      rw (befores, start)
          (backward-Backs (get_or (usedefs_of f) b [])
            (get_or l.live_out b (empty_set f (usedefs_of f))) defs),
    )
