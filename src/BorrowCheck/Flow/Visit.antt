-- ===== src/BorrowCheck/Flow/Visit.antt =====
-- One visit of a block, in the loop over the blocks of `compute_liveness`.
use nitrate.Prelude.{
  ℕ, ◌<◌, Bool, true, false, not, ◌||◌, List, [], ◌∷◌, length, get_or, set, if◌then◌else◌, ◌==◌,
  ==_iff, ◌≡◌, ◌≢◌, inl, inr, refl, sym, ap, subst, ◌∙◌, arith, Bool-cases, and_true, or_false,
  get_or-set_self, get_or-set_ne, length-set,
}
use nitrate.BorrowCheck.Function.{FunctionData, successor_indices}
use nitrate.BorrowCheck.BitSet.{BitSet, with_capacity, union_with, bit_set_eq}
use nitrate.BorrowCheck.BitSet.Laws.{bit_set_eq-eq}
use nitrate.BorrowCheck.Liveness.{UseDef}
use nitrate.BorrowCheck.Flow.{nlocals, Flow, backward, sets_eq, union_successors, visit_block}

abbrev of_words : List ℕ → BitSet
of_words ws = record { words = ws }

pub bit_set_eq-same : (s t : BitSet) → bit_set_eq s t ≡ true → s ≡ t
bit_set_eq-same s t h = ap of_words (bit_set_eq-eq s t h)

pub sets_eq-same : (ss ts : List BitSet) → sets_eq ss ts ≡ true → ss ≡ ts
unfolding sets_eq
sets_eq-same [] [] h = refl
sets_eq-same [] (t ∷ ts) h = absurd (ground arith)
sets_eq-same (s ∷ ss) [] h = absurd (ground arith)
sets_eq-same (s ∷ ss) (t ∷ ts) h =
    let (first, others) = and_true (bit_set_eq s t) (sets_eq ss ts) h in
    let same = bit_set_eq-same s t first in
    let later = sets_eq-same ss ts others in rw (same, later) refl

-- An entry that is only written where it differs.
module _ {ℓ} {A : Type ℓ} (keep : Bool) (xs : List A) (i : ℕ) (v : A) where
  length-set_unless : length (if keep then xs else set xs i v) ≡ length xs
  length-set_unless = elim (Bool-cases keep) [
    | inl same ↦ rw same
    | inr other ↦ rw other (length-set xs i v)
  ]

  pub get_or-set_unless :
      (j : ℕ) (d : A) → i ≢ j → get_or (if keep then xs else set xs i v) j d ≡ get_or xs j d
  get_or-set_unless j d ne = elim (Bool-cases keep) [
    | inl same ↦ rw same
    | inr other ↦ rw other (get_or-set_ne xs i j v d ne)
  ]

module _ (f : FunctionData) (usedefs : List (List UseDef)) where
  abbrev pub empty_set : BitSet
  empty_set = with_capacity (nlocals f)

  abbrev pub outs : ℕ → Flow → BitSet
  outs b s = get_or s.live_out b empty_set

  abbrev pub ins : ℕ → Flow → BitSet
  ins b s = get_or s.live_in b empty_set

  abbrev pub befores : ℕ → Flow → List BitSet
  befores b s = get_or s.live_before b []

  -- What a block computes from the locals that are live behind it.
  abbrev pub pass : ℕ → BitSet → List BitSet × BitSet
  pass b out = backward (get_or usedefs b []) out

  abbrev pub Sized : Flow → Type 0
  Sized s =
      (length s.live_in ≡ length f.blocks)
      × (length s.live_out ≡ length f.blocks)
      × (length s.live_before ≡ length f.blocks)

  -- A block whose statements are up to date is up to date at its start.
  abbrev pub Coherent : Flow → Type 0
  Coherent s =
      (b : ℕ)
      → b < length f.blocks
      → befores b s ≡ (pass b (outs b s)).0
      → ins b s ≡ (pass b (outs b s)).1

  -- The equations at a block.
  abbrev pub Solved : ℕ → Flow → Type 0
  Solved b s =
      (outs b s ≡ union_successors f usedefs (successor_indices f b) s.live_in empty_set)
      × (befores b s ≡ (pass b (outs b s)).0)
      × (ins b s ≡ (pass b (outs b s)).1)

  abbrev pub Same : Flow → Flow → Type 0
  Same s t =
      (t.live_out ≡ s.live_out) × (t.live_before ≡ s.live_before) × ((b : ℕ) → ins b t ≡ ins b s)

  union_successors-same :
      (succs : List ℕ) (xs ys : List BitSet) (out : BitSet)
      → ((b : ℕ) → get_or xs b empty_set ≡ get_or ys b empty_set)
      → union_successors f usedefs succs xs out ≡ union_successors f usedefs succs ys out
  unfolding union_successors
  union_successors-same [] xs ys out h = refl
  union_successors-same (b ∷ bs) xs ys out h =
      rw (h b) (union_successors-same bs xs ys (union_with out (get_or ys b empty_set)) h)

  pub Solved-Same : (b : ℕ) (s t : Flow) → Same s t → Solved b t → Solved b s
  Solved-Same b s t same solved = (
    subst
          (λ l.
            get_or l b empty_set
            ≡ union_successors f usedefs (successor_indices f b) t.live_in empty_set)
          same.0 solved.0
        ∙ union_successors-same (successor_indices f b) t.live_in s.live_in empty_set same.2,
    let e : befores b t ≡ (pass b (outs b t)).0 = solved.1 in rw (sym same.0, sym same.1) e,
    sym (same.2 b) ∙ solved.2 ∙ ap (λ l. (pass b (get_or l b empty_set)).1) same.0,
  )

  pub visit_block-Sized : (b : ℕ) (s : Flow) → Sized s → Sized (visit_block f usedefs b s)
  unfolding visit_block
  visit_block-Sized b s h = (
    length-set s.live_in b _ ∙ h.0,
    length-set_unless _ s.live_out b _ ∙ h.1,
    length-set_unless _ s.live_before b _ ∙ h.2,
  )

  pub visit_block-Coherent :
      (b : ℕ) (s : Flow) → Sized s → Coherent s → Coherent (visit_block f usedefs b s)
  unfolding visit_block
  visit_block-Coherent b s sized h j inside = elim (Bool-cases (b == j)) [
    | inl same ↦ λ up_to_date.
        let s' = visit_block f usedefs b s in
        let e = (==_iff b j).0 same in
        let in_range : b < length s.live_in = omega (arith, e, sized.0) in
        subst (λ k. ins k s' ≡ (pass k (outs k s')).1) e
          (get_or-set_self s.live_in b _ empty_set in_range)
    | inr other ↦ λ up_to_date.
        let ne : b ≢ j = λ e. ground (arith, e, other) in
        let out = get_or-set_unless _ s.live_out b _ j empty_set ne in
        let before = get_or-set_unless _ s.live_before b _ j [] ne in
        get_or-set_ne s.live_in b j _ empty_set ne
        ∙ h j inside (sym before ∙ up_to_date ∙ ap (λ o. (pass j o).0) out)
        ∙ sym (ap (λ o. (pass j o).1) out)
  ]

  -- A visit that changes nothing finds the equations solved.
  pub visit_block-Same :
      (b : ℕ) (s : Flow)
      → Sized s
      → Coherent s
      → b < length f.blocks
      → (visit_block f usedefs b s).changed ≡ false
      → (s.changed ≡ false) × Same s (visit_block f usedefs b s) × Solved b s
  unfolding visit_block
  visit_block-Same b s sized h inside quiet =
      let new_out = union_successors f usedefs (successor_indices f b) s.live_in empty_set in
      let same_out = bit_set_eq new_out (outs b s) in
      let live_out : List BitSet = if same_out then s.live_out else set s.live_out b new_out in
      let per_stmt = (pass b (get_or live_out b empty_set)).0 in
      let same_before = sets_eq (befores b s) per_stmt in
      let (earlier, before_flag) = or_false (s.changed || not same_out) (not same_before) quiet in
      let (unchanged, out_flag) = or_false s.changed (not same_out) earlier in
      let out_kept : same_out ≡ true = ground (arith, out_flag) in
      let before_kept : same_before ≡ true = ground (arith, before_flag) in
      let out_same : live_out ≡ s.live_out = rw out_kept refl in
      let before_eq : befores b s ≡ (pass b (outs b s)).0 =
        sets_eq-same (befores b s) per_stmt before_kept
        ∙ ap (λ l. (pass b (get_or l b empty_set)).0) out_same in
      let in_eq = h b inside before_eq in
      (
        unchanged,
        (
          out_same,
          rw before_kept refl,
          λ j. elim (Bool-cases (b == j)) [
            | inl same ↦
                let in_range : b < length s.live_in = omega (arith, sized.0) in
                subst (λ k. ins k (visit_block f usedefs b s) ≡ ins k s) ((==_iff b j).0 same)
                  (get_or-set_self s.live_in b _ empty_set in_range
                    ∙ ap (λ l. (pass b (get_or l b empty_set)).1) out_same
                    ∙ sym in_eq)
            | inr other ↦ get_or-set_ne s.live_in b j _ empty_set (λ e. ground (arith, e, other))
          ],
        ),
        (sym (bit_set_eq-same new_out (outs b s) out_kept), before_eq, in_eq),
      )
