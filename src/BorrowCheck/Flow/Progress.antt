-- ===== src/BorrowCheck/Flow/Progress.antt =====
-- A round that changes something makes the live sets larger.
use nitrate.Prelude.{
  ℕ, zero, suc, ◌+◌, ◌*◌, ◌<◌, ◌≤◌, true, false, List, [], ◌∷◌, length, get_or, set, ==_refl, ◌≡◌,
  ◌≢◌, inl, inr, refl, sym, ap, ◌∙◌, arith, Bool-cases, get_or-set_self,
}
use nitrate.BorrowCheck.Function.{FunctionData}
use nitrate.BorrowCheck.BitSet.{BitSet, bit_set_eq, words_eq}
use nitrate.BorrowCheck.BitSet.Subset.{size, size_mono, size-strict}
use nitrate.BorrowCheck.Liveness.{UseDef}
use nitrate.BorrowCheck.Flow.{Flow, sets_eq, visit_block}
use nitrate.BorrowCheck.Flow.Visit.{
  empty_set, outs, befores, pass, Sized, sets_eq-same, get_or-set_unless,
}
use nitrate.BorrowCheck.Flow.Order.{Below}
use nitrate.BorrowCheck.Flow.Growth.{joined, Grown}

words_eq_refl : (ws : List ℕ) → words_eq ws ws ≡ true
unfolding words_eq
words_eq_refl [] = refl
words_eq_refl (w ∷ ws) = rw (==_refl w) (words_eq_refl ws)

bit_set_eq_refl : (s t : BitSet) → s.words ≡ t.words → bit_set_eq s t ≡ true
unfolding bit_set_eq
bit_set_eq_refl s t e = rw e (words_eq_refl t.words)

sets_eq_refl : (ss : List BitSet) → sets_eq ss ss ≡ true
unfolding sets_eq
sets_eq_refl [] = refl
sets_eq_refl (s ∷ ss) = rw (bit_set_eq_refl s s refl) (sets_eq_refl ss)

abbrev pub total : List BitSet → ℕ
total [] = 0
total (s ∷ ss) = size s.words + total ss

total-set :
    (ss : List BitSet) (i : ℕ) (s d : BitSet)
    → i < length ss
    → total (set ss i s) + size (get_or ss i d).words ≡ total ss + size s.words
total-set [] i s d h = elim h [ ]
total-set (t ∷ ss) zero s d h = omega arith
total-set (t ∷ ss) (suc i) s d h = omega (arith, total-set ss i s d (omega arith))

pub total_bounded :
    (top d : BitSet) (ss : List BitSet)
    → ((j : ℕ) → Below (get_or ss j d) top)
    → total ss ≤ length ss * size top.words
total_bounded top d [] h = omega arith
total_bounded top d (s ∷ ss) h =
    let rest = total_bounded top d ss (λ j. h (suc j)) in omega (arith, size_mono (h 0), rest)

module _ (f : FunctionData) (usedefs : List (List UseDef)) where
  -- The statements of a block are up to date.
  abbrev pub IsFresh : ℕ → Flow → Type 0
  IsFresh b s = befores f usedefs b s ≡ (pass f usedefs b (outs f usedefs b s)).0

  pub visit_block-IsFresh :
      (b : ℕ) (s : Flow)
      → Sized f usedefs s
      → b < length f.blocks
      → IsFresh b (visit_block f usedefs b s)
  unfolding visit_block
  visit_block-IsFresh b s sized inside =
      let s' = visit_block f usedefs b s in
      let per_stmt = (pass f usedefs b (outs f usedefs b s')).0 in
      elim (Bool-cases (sets_eq (befores f usedefs b s) per_stmt)) [
        | inl same ↦ rw same (sets_eq-same (befores f usedefs b s) per_stmt same)
        | inr other ↦
            let in_range : b < length s.live_before = omega (arith, sized.2) in
            rw other (get_or-set_self s.live_before b per_stmt [] in_range)
      ]

  pub visit_block-keeps_IsFresh :
      (b j : ℕ) (s : Flow) → b ≢ j → IsFresh j s → IsFresh j (visit_block f usedefs b s)
  unfolding visit_block
  visit_block-keeps_IsFresh b j s ne h =
      get_or-set_unless _ s.live_before b _ j [] ne
      ∙ h
      ∙ sym (
          ap (λ o. (pass f usedefs j o).0)
            (get_or-set_unless _ s.live_out b _ j (empty_set f usedefs) ne))

  pub visit_block-grows :
      (b : ℕ) (s : Flow)
      → Sized f usedefs s
      → Grown f usedefs s
      → b < length f.blocks
      → total s.live_out ≤ total (visit_block f usedefs b s).live_out
  unfolding visit_block
  visit_block-grows b s sized grown inside =
      elim (Bool-cases (bit_set_eq (joined f usedefs b s) (outs f usedefs b s))) [
        | inl same ↦ rw same (omega arith)
        | inr other ↦
            let in_range : b < length s.live_out = omega (arith, sized.1) in
            rw other (
              omega (
                arith,
                size_mono (grown b inside).0,
                total-set s.live_out b (joined f usedefs b s) (empty_set f usedefs) in_range,
              ))
      ]

  pub visit_block-grows_strictly :
      (b : ℕ) (s : Flow)
      → Sized f usedefs s
      → Grown f usedefs s
      → b < length f.blocks
      → IsFresh b s
      → s.changed ≡ false
      → (visit_block f usedefs b s).changed ≡ true
      → total s.live_out < total (visit_block f usedefs b s).live_out
  unfolding visit_block
  visit_block-grows_strictly b s sized grown inside fresh before_ after =
      elim (Bool-cases (bit_set_eq (joined f usedefs b s) (outs f usedefs b s))) [
        | inl same ↦
            let quiet : sets_eq (befores f usedefs b s) (pass f usedefs b (outs f usedefs b s)).0
                ≡ true =
              rw fresh (sets_eq_refl (pass f usedefs b (outs f usedefs b s)).0) in
            absurd (let after' = rw same at after in ground (arith, after', quiet, before_))
        | inr other ↦
            let in_range : b < length s.live_out = omega (arith, sized.1) in
            let differ : (outs f usedefs b s).words ≢ (joined f usedefs b s).words = λ e.
              ground (
                arith,
                other,
                bit_set_eq_refl (joined f usedefs b s) (outs f usedefs b s) (sym e),
              ) in
            rw other (
              omega (
                arith,
                size-strict (grown b inside).0 differ,
                total-set s.live_out b (joined f usedefs b s) (empty_set f usedefs) in_range,
              ))
      ]
