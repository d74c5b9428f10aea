-- ===== src/BorrowCheck/Flow/Total.antt =====
-- `compute_liveness` on enough rounds.
use nitrate.Prelude.{ℕ, suc, List, [], some, length, get_or, replicate, ◌≡◌, refl, sym, subst}
use nitrate.BorrowCheck.Function.{FunctionData}
use nitrate.BorrowCheck.BitSet.{BitSet}
use nitrate.BorrowCheck.BitSet.Subset.{SubWords-refl}
use nitrate.BorrowCheck.Liveness.{UseDef}
use nitrate.BorrowCheck.Flow.{
  LivenessInfo, nlocals, Flow, rounds, initial_flow, compute_liveness, function_usedefs,
  initial_collected,
}
use nitrate.BorrowCheck.Flow.Visit.{empty_set}
use nitrate.BorrowCheck.Flow.Order.{Below, all_uses_acc, union_successors_acc, empty-backward}
use nitrate.BorrowCheck.Flow.Growth.{joined}
use nitrate.BorrowCheck.Flow.Termination.{IsFlow, top, capacity, rounds-ends}
use nitrate.BorrowCheck.Flow.Equations.{IsLiveness, Solves-IsLiveness}
use nitrate.BorrowCheck.Flow.Solution.{
  usedefs_of, compute_liveness-Solves, initial-Sized, get_or-replicate,
}

initial-IsFlow :
    (f : FunctionData) (usedefs : List (List UseDef)) → IsFlow f usedefs (initial_flow f)
unfolding initial_flow
initial-IsFlow f usedefs =
    let empty = empty_set f usedefs in
    let all_empty : (j : ℕ) → get_or (replicate (length f.blocks) empty) j empty ≡ empty =
      λ j. get_or-replicate (length f.blocks) j empty in
    (
      initial-Sized f usedefs,
      λ b inside. (
        subst (λ o. Below o (joined f usedefs b (initial_flow f))) (sym (all_empty b))
            (union_successors_acc f usedefs _ _ empty),
        rw (all_empty b)
            (empty-backward (nlocals f) (get_or usedefs b []) empty (SubWords-refl empty.words)),
      ),
      λ j. (
        subst (λ o. Below o (top f usedefs)) (sym (all_empty j)) (all_uses_acc empty usedefs),
        subst (λ o. Below o (top f usedefs)) (sym (all_empty j)) (all_uses_acc empty usedefs),
      ),
    )

compute_liveness-some :
    (fuel : ℕ) (f : FunctionData) (t : Flow)
    → rounds f (usedefs_of f) fuel (initial_flow f) ≡ some t
    → (l : LivenessInfo) × (compute_liveness fuel f ≡ some l)
unfolding compute_liveness
compute_liveness-some fuel f t ends =
    let counts = (function_usedefs f f.blocks (initial_collected f)).1 in
    let l : LivenessInfo = record {
      live_before = t.live_before;
      live_out = t.live_out;
      use_counts = counts.use_counts;
      call_arg_uses = counts.call_arg_uses;
    } in
    (l, rw (ends, compute_liveness) refl)

-- Two rounds more than the live sets can grow.
abbrev pub enough_rounds : FunctionData → ℕ
enough_rounds f = suc (suc (capacity f (usedefs_of f)))

-- The rounds of the liveness end for every function, and there are sets of locals live at the start
-- of each block with which the result solves these equations at every block: a local is live behind
-- the block exactly where it is live at the start of some successor, and live before a statement, or
-- the terminator, exactly where that uses it, or it is live behind it, and that does not define it.
-- The set before the first of them is the one at the start of the block.
pub compute_liveness_total :
    (f : FunctionData)
    → (l : LivenessInfo) × (compute_liveness (enough_rounds f) f ≡ some l)
      × ((live_in : List BitSet) × IsLiveness f l live_in)
compute_liveness_total f =
    let (t, ends) =
      rounds-ends f (usedefs_of f) (initial_flow f) (initial-IsFlow f (usedefs_of f)) in
    let (l, returned) = compute_liveness-some (enough_rounds f) f t ends in
    let (live_in, solves) = compute_liveness-Solves (enough_rounds f) f l returned in
    (l, returned, (live_in, Solves-IsLiveness f l live_in solves))
