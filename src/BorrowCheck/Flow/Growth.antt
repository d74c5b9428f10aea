-- ===== src/BorrowCheck/Flow/Growth.antt =====
-- A visit of a block only adds to the live sets.
use nitrate.Prelude.{
  ℕ, ◌<◌, List, [], length, get_or, ◌==◌, ==_iff, ◌≡◌, ◌≢◌, inl, inr, sym, ap, subst, ◌∙◌, arith,
  Bool-cases, get_or-set_self, get_or-set_ne,
}
use nitrate.BorrowCheck.Function.{FunctionData, successor_indices}
use nitrate.BorrowCheck.BitSet.{BitSet, bit_set_eq}
use nitrate.BorrowCheck.BitSet.Subset.{SubWords-refl, SubWords-trans}
use nitrate.BorrowCheck.Liveness.{UseDef}
use nitrate.BorrowCheck.Flow.{Flow, union_successors, visit_block}
use nitrate.BorrowCheck.Flow.Visit.{
  empty_set, outs, ins, pass, Sized, bit_set_eq-same, get_or-set_unless,
}
use nitrate.BorrowCheck.Flow.Order.{
  Below, AllBelow, UsesBelow, union_successors_mono, union_successors-Below, backward_mono,
  backward-Below,
}

module _ (f : FunctionData) (usedefs : List (List UseDef)) where
  abbrev pub joined : ℕ → Flow → BitSet
  joined b s = union_successors f usedefs (successor_indices f b) s.live_in (empty_set f usedefs)

  -- No live set is above what its equation makes of the others.
  abbrev pub Grown : Flow → Type 0
  Grown s =
      (b : ℕ)
      → b < length f.blocks
      → Below (outs f usedefs b s) (joined b s)
        × Below (ins f usedefs b s) (pass f usedefs b (outs f usedefs b s)).1

  visit_block-outs_self :
      (b : ℕ) (s : Flow)
      → Sized f usedefs s
      → b < length f.blocks
      → outs f usedefs b (visit_block f usedefs b s) ≡ joined b s
  unfolding visit_block
  visit_block-outs_self b s sized inside =
      elim (Bool-cases (bit_set_eq (joined b s) (outs f usedefs b s))) [
        | inl same ↦ rw same (sym (bit_set_eq-same (joined b s) (outs f usedefs b s) same))
        | inr other ↦
            let in_range : b < length s.live_out = omega (arith, sized.1) in
            rw other (get_or-set_self s.live_out b (joined b s) (empty_set f usedefs) in_range)
      ]

  visit_block-ins_self :
      (b : ℕ) (s : Flow)
      → Sized f usedefs s
      → b < length f.blocks
      → ins f usedefs b (visit_block f usedefs b s) ≡ (pass f usedefs b (joined b s)).1
  unfolding visit_block
  visit_block-ins_self b s sized inside =
      let in_range : b < length s.live_in = omega (arith, sized.0) in
      get_or-set_self s.live_in b _ (empty_set f usedefs) in_range
      ∙ ap (λ o. (pass f usedefs b o).1) (visit_block-outs_self b s sized inside)

  visit_block-outs_other :
      (b j : ℕ) (s : Flow)
      → b ≢ j
      → outs f usedefs j (visit_block f usedefs b s) ≡ outs f usedefs j s
  unfolding visit_block
  visit_block-outs_other b j s ne = get_or-set_unless _ s.live_out b _ j (empty_set f usedefs) ne

  visit_block-ins_other :
      (b j : ℕ) (s : Flow) → b ≢ j → ins f usedefs j (visit_block f usedefs b s) ≡ ins f usedefs j s
  unfolding visit_block
  visit_block-ins_other b j s ne = get_or-set_ne s.live_in b j _ (empty_set f usedefs) ne

  module _ (b : ℕ) (s : Flow) (sized : Sized f usedefs s) (inside : b < length f.blocks) where
    -- What is true of the block itself and of every other block is true of every block.
    each_block : (P : ℕ → Type 0) → P b → ((j : ℕ) → b ≢ j → P j) → (j : ℕ) → P j
    each_block P here other j = elim (Bool-cases (b == j)) [
      | inl same ↦ subst P ((==_iff b j).0 same) here
      | inr differs ↦ other j (λ e. ground (arith, e, differs))
    ]

    pub visit_block-grows_ins :
        Grown s → AllBelow f usedefs s.live_in (visit_block f usedefs b s).live_in
    visit_block-grows_ins h =
        each_block (λ j. Below (ins f usedefs j s) (ins f usedefs j (visit_block f usedefs b s)))
          (rw (visit_block-ins_self b s sized inside) (
            SubWords-trans (h b inside).1 (
              backward_mono (get_or usedefs b []) (outs f usedefs b s) (joined b s)
                (h b inside).0)))
          (λ j ne. rw (visit_block-ins_other b j s ne) (SubWords-refl (ins f usedefs j s).words))

    pub visit_block-Grown : Grown s → Grown (visit_block f usedefs b s)
    visit_block-Grown h =
        let s' = visit_block f usedefs b s in
        let grows : (j : ℕ) → Below (joined j s) (joined j s') = λ j.
          union_successors_mono f usedefs (successor_indices f j) s.live_in s'.live_in _ _
            (visit_block-grows_ins h) (SubWords-refl (empty_set f usedefs).words) in
        each_block
          (λ j.
            j < length f.blocks
            → Below (outs f usedefs j s') (joined j s')
              × Below (ins f usedefs j s') (pass f usedefs j (outs f usedefs j s')).1)
          (λ _. (
            subst (λ o. Below o (joined b s')) (sym (visit_block-outs_self b s sized inside))
                (grows b),
            subst (λ o. Below o (pass f usedefs b (outs f usedefs b s')).1)
                (sym (visit_block-ins_self b s sized inside))
                (subst (λ o. Below (pass f usedefs b (joined b s)).1 (pass f usedefs b o).1)
                  (sym (visit_block-outs_self b s sized inside))
                  (SubWords-refl (pass f usedefs b (joined b s)).1.words)),
          ))
          (λ j ne within. (
            subst (λ o. Below o (joined j s')) (sym (visit_block-outs_other b j s ne))
                (SubWords-trans (h j within).0 (grows j)),
            subst (λ i. Below i (pass f usedefs j (outs f usedefs j s')).1)
                (sym (visit_block-ins_other b j s ne))
                (subst (λ o. Below (ins f usedefs j s) (pass f usedefs j o).1)
                  (sym (visit_block-outs_other b j s ne)) (h j within).1),
          ))

    -- Everything stays below a set that holds the used locals.
    pub visit_block_bounded :
        (top : BitSet)
        → ((j : ℕ) → UsesBelow top (get_or usedefs j []))
        → Below (empty_set f usedefs) top
        → ((j : ℕ) → Below (ins f usedefs j s) top × Below (outs f usedefs j s) top)
        → (j : ℕ)
        → Below (ins f usedefs j (visit_block f usedefs b s)) top
          × Below (outs f usedefs j (visit_block f usedefs b s)) top
    visit_block_bounded top used empty h =
        let s' = visit_block f usedefs b s in
        let new_out =
          union_successors-Below f usedefs top (successor_indices f b) s.live_in
            (empty_set f usedefs) (λ j. (h j).0) empty in
        each_block (λ j. Below (ins f usedefs j s') top × Below (outs f usedefs j s') top)
          (
            subst (λ i. Below i top) (sym (visit_block-ins_self b s sized inside))
                (backward-Below top (get_or usedefs b []) (joined b s) (used b) new_out),
            subst (λ o. Below o top) (sym (visit_block-outs_self b s sized inside)) new_out,
          )
          (λ j ne. (
            subst (λ i. Below i top) (sym (visit_block-ins_other b j s ne)) (h j).0,
            subst (λ o. Below o top) (sym (visit_block-outs_other b j s ne)) (h j).1,
          ))
