-- ===== src/BorrowCheck/Flow/Solution.antt =====
-- The liveness that the rounds end with solves the backward data flow equations.
use nitrate.Prelude.{
  ℕ, zero, suc, ◌+◌, ◌<◌, ◌≤◌, false, List, [], ◌∷◌, some, length, get_or, replicate, ◌==◌, ==_iff,
  ◌≡◌, inl, inr, refl, sym, subst, ◌∙◌, arith, Bool-cases, Option-cases, length-replicate,
}
use mathlib.Core.Option.{some-injective, none-ne-some}
use nitrate.BorrowCheck.Function.{FunctionData, successor_indices}
use nitrate.BorrowCheck.BitSet.{BitSet}
use nitrate.BorrowCheck.Liveness.{UseDef}
use nitrate.BorrowCheck.Flow.{
  LivenessInfo, Flow, backward, union_successors, visit_block, visit_blocks, round, rounds,
  initial_flow, function_usedefs, initial_collected, compute_liveness,
}
use mathlib.Core.List.{cons-ne-nil}
use nitrate.BorrowCheck.Flow.Visit.{
  empty_set, outs, Sized, Coherent, Solved, Same, Solved-Same, visit_block-Sized,
  visit_block-Coherent, visit_block-Same,
}

module _ (f : FunctionData) (usedefs : List (List UseDef)) where
  Same-trans : (s t u : Flow) → Same f usedefs s t → Same f usedefs t u → Same f usedefs s u
  Same-trans s t u h k = (k.0 ∙ h.0, k.1 ∙ h.1, λ b. k.2 b ∙ h.2 b)

  visit_blocks-Coherent :
      (left b : ℕ) (s : Flow)
      → Sized f usedefs s
      → Coherent f usedefs s
      → Sized f usedefs (visit_blocks f usedefs left b s)
        × Coherent f usedefs (visit_blocks f usedefs left b s)
  unfolding visit_blocks
  visit_blocks-Coherent zero b s sized h = (sized, h)
  visit_blocks-Coherent (suc left) b s sized h =
      visit_blocks-Coherent left (b + 1) (visit_block f usedefs b s)
        (visit_block-Sized f usedefs b s sized) (visit_block-Coherent f usedefs b s sized h)

  -- A run over blocks that changes nothing finds the equations of each of them solved.
  visit_blocks-Same :
      (left b : ℕ) (s : Flow)
      → Sized f usedefs s
      → Coherent f usedefs s
      → b + left ≡ length f.blocks
      → (visit_blocks f usedefs left b s).changed ≡ false
      → (s.changed ≡ false)
        × Same f usedefs s (visit_blocks f usedefs left b s)
        × ((j : ℕ) → b ≤ j → j < length f.blocks → Solved f usedefs j s)
  unfolding visit_blocks
  visit_blocks-Same zero b s sized h all quiet =
      (quiet, (refl, refl, λ j. refl), λ j low high. absurd (omega arith))
  visit_blocks-Same (suc left) b s sized h all quiet =
      let s' = visit_block f usedefs b s in
      let (quiet', rest, later) =
        visit_blocks-Same left (b + 1) s' (visit_block-Sized f usedefs b s sized)
          (visit_block-Coherent f usedefs b s sized h) (omega arith) quiet in
      let (unchanged, same, solved) = visit_block-Same f usedefs b s sized h (omega arith) quiet' in
      (
        unchanged,
        Same-trans s s' (visit_blocks f usedefs left (b + 1) s') same rest,
        λ j low high. elim (Bool-cases (b == j)) [
          | inl here ↦ subst (λ k. Solved f usedefs k s) ((==_iff b j).0 here) solved
          | inr above ↦ Solved-Same f usedefs j s s' same (later j (ground (arith, above)) high)
        ],
      )

  round-Solved :
      (s : Flow)
      → Sized f usedefs s
      → Coherent f usedefs s
      → (round f usedefs s).changed ≡ false
      → (j : ℕ) → j < length f.blocks
      → Solved f usedefs j (round f usedefs s)
  unfolding round
  round-Solved s sized h quiet j inside =
      let s₀ : Flow = record s { changed = false } in
      let (unchanged, same, solved) =
        visit_blocks-Same (length f.blocks) 0 s₀ sized h (omega arith) quiet in
      Solved-Same f usedefs j (round f usedefs s) s₀ (sym same.0, sym same.1, λ b. sym (same.2 b))
        (solved j (omega arith) inside)

  rounds-Solved :
      (fuel : ℕ) (s t : Flow)
      → Sized f usedefs s
      → Coherent f usedefs s
      → rounds f usedefs fuel s ≡ some t
      → (j : ℕ) → j < length f.blocks
      → Solved f usedefs j t
  unfolding rounds round visit_blocks
  rounds-Solved zero s t sized h e = absurd (none-ne-some t e)
  rounds-Solved (suc fuel) s t sized h e = elim (Bool-cases (round f usedefs s).changed) [
    | inl again ↦
        let (sized', h') =
          visit_blocks-Coherent (length f.blocks) 0 (record s { changed = false }) sized h in
        rounds-Solved fuel (round f usedefs s) t sized' h' (rw again at e)
    | inr quiet ↦
        subst (λ u. (j : ℕ) → j < length f.blocks → Solved f usedefs j u)
          (some-injective (round f usedefs s) t (rw quiet at e)) (round-Solved s sized h quiet)
  ]

pub get_or-replicate {ℓ} : {A : Type ℓ} (n i : ℕ) (a : A) → get_or (replicate n a) i a ≡ a
get_or-replicate zero i a = refl
get_or-replicate (suc n) zero a = refl
get_or-replicate (suc n) (suc i) a = get_or-replicate n i a

pub initial-Sized :
    (f : FunctionData) (usedefs : List (List UseDef)) → Sized f usedefs (initial_flow f)
unfolding initial_flow
initial-Sized f usedefs = (length-replicate _ _, length-replicate _ _, length-replicate _ _)

backward-none :
    (us : List UseDef) (out : BitSet) → [] ≡ (backward us out).0 → out ≡ (backward us out).1
unfolding backward
backward-none [] out h = refl
backward-none (u ∷ us) out h = absurd (cons-ne-nil _ _ (sym h))

initial-Coherent :
    (f : FunctionData) (usedefs : List (List UseDef)) → Coherent f usedefs (initial_flow f)
unfolding initial_flow
initial-Coherent f usedefs b inside h =
    backward-none (get_or usedefs b []) (outs f usedefs b (initial_flow f))
      (sym (get_or-replicate (length f.blocks) b []) ∙ h)

-- The use and def sets of every statement of the function.
abbrev pub usedefs_of : FunctionData → List (List UseDef)
usedefs_of f = (function_usedefs f f.blocks (initial_collected f)).0

-- The data flow equations, with the locals live at the start of each block given.
abbrev pub Solves : FunctionData → LivenessInfo → List BitSet → Type 0
Solves f l live_in =
    (b : ℕ)
    → b < length f.blocks
    → (get_or l.live_out b (empty_set f (usedefs_of f))
        ≡ union_successors f (usedefs_of f) (successor_indices f b) live_in
            (empty_set f (usedefs_of f)))
      × (get_or l.live_before b []
          ≡ (backward (get_or (usedefs_of f) b [])
              (get_or l.live_out b (empty_set f (usedefs_of f)))).0)
      × (get_or live_in b (empty_set f (usedefs_of f))
          ≡ (backward (get_or (usedefs_of f) b [])
              (get_or l.live_out b (empty_set f (usedefs_of f)))).1)

-- Whatever liveness the rounds end with, it solves the equations: what is live behind a block is
-- the union of what is live at the start of its successors, and what is live before each of its
-- statements, and at its own start, is what the backward pass makes of that.
pub compute_liveness-Solves :
    (fuel : ℕ) (f : FunctionData) (l : LivenessInfo)
    → compute_liveness fuel f ≡ some l
    → (live_in : List BitSet) × Solves f l live_in
unfolding compute_liveness
compute_liveness-Solves fuel f l e =
    elim (Option-cases (rounds f (usedefs_of f) fuel (initial_flow f))) [
      | inl unfinished ↦ absurd (none-ne-some l (rw (unfinished, compute_liveness) at e))
      | inr (s, found) ↦
          let solved =
            rounds-Solved f (usedefs_of f) fuel (initial_flow f) s (initial-Sized f (usedefs_of f))
              (initial-Coherent f (usedefs_of f)) found in
          (
            s.live_in,
            subst (λ k. Solves f k s.live_in)
                (some-injective _ l (rw (found, compute_liveness) at e)) solved,
          )
    ]
