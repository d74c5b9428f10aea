-- ===== src/BorrowCheck/Flow/Termination.antt =====
-- The rounds of the liveness end.
use nitrate.Prelude.{
  ℕ, zero, suc, ◌+◌, ◌*◌, ◌<◌, ◌≤◌, true, false, List, some, length, ◌==◌, ==_iff, ◌≡◌, inl, inr,
  refl, subst, arith, Bool-cases,
}
use nitrate.BorrowCheck.Function.{FunctionData}
use nitrate.BorrowCheck.BitSet.{BitSet}
use nitrate.BorrowCheck.BitSet.Subset.{size}
use nitrate.BorrowCheck.Liveness.{UseDef}
use nitrate.BorrowCheck.Flow.{Flow, visit_block, visit_blocks, round, rounds}
use nitrate.BorrowCheck.Flow.Visit.{empty_set, outs, ins, Sized, visit_block-Sized}
use nitrate.BorrowCheck.Flow.Order.{Below, all_uses, all_uses_acc, UsesBelow-all_uses}
use nitrate.BorrowCheck.Flow.Growth.{Grown, visit_block-Grown, visit_block_bounded}
use nitrate.BorrowCheck.Flow.Progress.{
  total, total_bounded, IsFresh, visit_block-IsFresh, visit_block-keeps_IsFresh, visit_block-grows,
  visit_block-grows_strictly,
}

module _ (f : FunctionData) (usedefs : List (List UseDef)) where
  abbrev pub top : BitSet
  top = all_uses (empty_set f usedefs) usedefs

  -- The shape of the loop's variables between two visits.
  abbrev pub IsFlow : Flow → Type 0
  IsFlow s =
      Sized f usedefs s
      × Grown f usedefs s
      × ((j : ℕ) → Below (ins f usedefs j s) top × Below (outs f usedefs j s) top)

  visit_block-IsFlow :
      (b : ℕ) (s : Flow) → b < length f.blocks → IsFlow s → IsFlow (visit_block f usedefs b s)
  visit_block-IsFlow b s inside (sized, grown, bounded) = (
    visit_block-Sized f usedefs b s sized,
    visit_block-Grown f usedefs b s sized inside grown,
    visit_block_bounded f usedefs b s sized inside top
        (UsesBelow-all_uses (empty_set f usedefs) usedefs)
        (all_uses_acc (empty_set f usedefs) usedefs) bounded,
  )

  -- After the visits, the larger live sets, and every block visited or fresh before is fresh.
  visit_blocks-IsFlow :
      (left b : ℕ) (s : Flow)
      → b + left ≡ length f.blocks
      → IsFlow s
      → ((j : ℕ) → j < b → IsFresh f usedefs j s)
      → IsFlow (visit_blocks f usedefs left b s)
        × ((j : ℕ) → j < length f.blocks → IsFresh f usedefs j (visit_blocks f usedefs left b s))
        × (total s.live_out ≤ total (visit_blocks f usedefs left b s).live_out)
  unfolding visit_blocks
  visit_blocks-IsFlow zero b s all h fresh = (h, λ j inside. fresh j (omega arith), omega arith)
  visit_blocks-IsFlow (suc left) b s all h fresh =
      let s' = visit_block f usedefs b s in
      let inside : b < length f.blocks = omega arith in
      let (end, fresh_end, more) =
        visit_blocks-IsFlow left (b + 1) s' (omega arith) (visit_block-IsFlow b s inside h)
          (λ j low. elim (Bool-cases (b == j)) [
            | inl same ↦
                subst (λ k. IsFresh f usedefs k s') ((==_iff b j).0 same)
                  (visit_block-IsFresh f usedefs b s h.0 inside)
            | inr other ↦
                visit_block-keeps_IsFresh f usedefs b j s (λ e. ground (arith, e, other))
                  (fresh j (ground (arith, other)))
          ]) in
      (end, fresh_end, omega (arith, more, visit_block-grows f usedefs b s h.0 h.1 inside))

  AllFresh : Flow → Type 0
  AllFresh s = (j : ℕ) → j < length f.blocks → IsFresh f usedefs j s

  visit_block-AllFresh :
      (b : ℕ) (s : Flow)
      → b < length f.blocks
      → Sized f usedefs s
      → AllFresh s
      → AllFresh (visit_block f usedefs b s)
  unfolding AllFresh
  visit_block-AllFresh b s inside sized fresh j within = elim (Bool-cases (b == j)) [
    | inl same ↦
        subst (λ k. IsFresh f usedefs k (visit_block f usedefs b s)) ((==_iff b j).0 same)
          (visit_block-IsFresh f usedefs b s sized inside)
    | inr other ↦
        visit_block-keeps_IsFresh f usedefs b j s (λ e. ground (arith, e, other)) (fresh j within)
  ]

  -- From fresh blocks, visits that change something make the live sets larger.
  visit_blocks-grows_strictly :
      (left b : ℕ) (s : Flow)
      → b + left ≡ length f.blocks
      → IsFlow s
      → AllFresh s
      → s.changed ≡ false
      → (visit_blocks f usedefs left b s).changed ≡ true
      → total s.live_out < total (visit_blocks f usedefs left b s).live_out
  unfolding visit_blocks AllFresh
  visit_blocks-grows_strictly zero b s all h fresh before_ after =
      absurd (ground (arith, before_, after))
  visit_blocks-grows_strictly (suc left) b s all h fresh before_ after =
      let s' = visit_block f usedefs b s in
      let inside : b < length f.blocks = omega arith in
      let h' = visit_block-IsFlow b s inside h in
      let fresh' = visit_block-AllFresh b s inside h.0 fresh in
      elim (Bool-cases s'.changed) [
        | inl now ↦
            let (_, _, more) =
              visit_blocks-IsFlow left (b + 1) s' (omega arith) h'
                (λ j low. fresh' j (omega arith)) in
            omega (
              arith,
              more,
              visit_block-grows_strictly f usedefs b s h.0 h.1 inside (fresh b inside) before_ now,
            )
        | inr later ↦ omega (
          arith,
          visit_block-grows f usedefs b s h.0 h.1 inside,
          visit_blocks-grows_strictly left (b + 1) s' (omega arith) h' fresh' later after,
        )
      ]

  abbrev pub capacity : ℕ
  capacity = length f.blocks * size top.words

  total-capacity : (s : Flow) → IsFlow s → total s.live_out ≤ capacity
  total-capacity s h =
      let bounded = total_bounded top (empty_set f usedefs) s.live_out (λ j. (h.2 j).1) in
      subst (λ n. total s.live_out ≤ n * size top.words) h.0.1 bounded

  round-IsFlow : (s : Flow) → IsFlow s → IsFlow (round f usedefs s) × AllFresh (round f usedefs s)
  unfolding round AllFresh
  round-IsFlow s h =
      let (end, fresh, more) =
        visit_blocks-IsFlow (length f.blocks) 0 (record s { changed = false }) (omega arith) h
          (λ j low. absurd (omega arith)) in
      (end, fresh)

  round-grows :
      (s : Flow)
      → IsFlow s
      → AllFresh s
      → (round f usedefs s).changed ≡ true
      → total s.live_out < total (round f usedefs s).live_out
  unfolding round AllFresh
  round-grows s h fresh again =
      visit_blocks-grows_strictly (length f.blocks) 0 (record s { changed = false }) (omega arith) h
        fresh refl again

  rounds_end :
      (left : ℕ) (s : Flow)
      → IsFlow s
      → AllFresh s
      → capacity ≤ total s.live_out + left
      → (t : Flow) × (rounds f usedefs (suc left) s ≡ some t)
  unfolding rounds round
  rounds_end zero s h fresh enough = elim (Bool-cases (round f usedefs s).changed) [
    | inl again ↦ absurd (
        omega (
          arith,
          round-grows s h fresh again,
          total-capacity (round f usedefs s) (round-IsFlow s h).0,
        ))
    | inr quiet ↦ (round f usedefs s, rw quiet refl)
  ]
  rounds_end (suc left) s h fresh enough = elim (Bool-cases (round f usedefs s).changed) [
    | inl again ↦
        let (h', fresh') = round-IsFlow s h in
        let (t, ends) =
          rounds_end left (round f usedefs s) h' fresh'
            (omega (arith, round-grows s h fresh again)) in
        (t, rw again ends)
    | inr quiet ↦ (round f usedefs s, rw quiet refl)
  ]

  -- The first round makes the blocks fresh.
  pub rounds-ends :
      (s : Flow) → IsFlow s → (t : Flow) × (rounds f usedefs (suc (suc capacity)) s ≡ some t)
  unfolding rounds round
  rounds-ends s h = elim (Bool-cases (round f usedefs s).changed) [
    | inl again ↦
        let (h', fresh') = round-IsFlow s h in
        let (t, ends) = rounds_end capacity (round f usedefs s) h' fresh' (omega arith) in
        (t, rw again ends)
    | inr quiet ↦ (round f usedefs s, rw quiet refl)
  ]
