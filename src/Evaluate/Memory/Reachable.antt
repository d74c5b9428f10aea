-- ===== src/Evaluate/Memory/Reachable.antt =====
-- The memories that calls without a panic lead to.
use nitrate.Prelude.{ℕ, ◌≡◌, refl, sym, ap, subst, ◌∙◌, inl, inr, Bool, List, arith}
use nitrate.Prelude.Classes.{nat_eq}
use nitrate.Prelude.Rounding.{le-round_up}
use nitrate.Prelude.Outcome.{Outcome, ok, err, panic}
use nitrate.Evaluate.Error.{EvalError}
use nitrate.Evaluate.Memory.{Memory, new, allocate, write, deallocate}
use nitrate.Evaluate.Memory.Entries.{Below, IsDisjoint, total_size}
use nitrate.Evaluate.Memory.Allocate.{rounded, allocate_cases}
use nitrate.Evaluate.Memory.Invariant.{
  IsMemory, inserted-IsMemory, write-IsMemory, deallocate-IsMemory,
}

-- A call came back.
abbrev pub Returns {ℓ κ} : {E : Type ℓ} {A : Type κ} → Outcome E A → Type 0
Returns (ok a) = Unit
Returns (err e) = Unit
Returns panic = ⊥

-- One call that changes the memory and comes back.
pub data Step (V : Type 0) : Memory → Memory → Type 0 where
  allocates :
      (m n : Memory) (size align : ℕ) (is_mutable : Bool) (o : Outcome (EvalError V) ℕ)
      → allocate m size align is_mutable ≡ (o, n)
      → Returns o
      → Step V m n
  writes :
      (m n : Memory) (base offset : ℕ) (bytes : List ℕ) (o : Outcome (EvalError V) (Unit {0}))
      → write m base offset bytes ≡ (o, n)
      → Returns o
      → Step V m n
  deallocates : (m n : Memory) (base : ℕ) → deallocate m base ≡ n → Step V m n

-- The memories that calls lead to from the empty one.
pub data Reachable (V : Type 0) (limit : ℕ) : Memory → Type 0 where
  start : Reachable V limit (new limit)
  step : {m n : Memory} → Reachable V limit m → Step V m n → Reachable V limit n

module _ (V : Type 0) where
  allocate-IsMemory :
      (m n : Memory) (k align : ℕ) (b : Bool) (o : Outcome (EvalError V) ℕ)
      → IsMemory m
      → allocate m k align b ≡ (o, n)
      → Returns o
      → IsMemory n
  allocate-IsMemory m n k align b o i e r = elim (allocate_cases {V = V} m k align b) [
    | inl (q, pos, within, ends) ↦ subst IsMemory (ap (λ p. p.1) (sym q ∙ e)) (
        inserted-IsMemory m (rounded m.next_addr align) k b i (le-round_up m.next_addr align pos)
          within ends)
    | inr (inl (q, _)) ↦ subst IsMemory (ap (λ p. p.1) (sym q ∙ e)) i
    | inr (inr q) ↦ absurd (subst Returns (ap (λ p. p.0) (sym e) ∙ q) r)
  ]

  Step-IsMemory : (m n : Memory) → Step V m n → IsMemory m → IsMemory n
  Step-IsMemory m n s i = elim s [
    | allocates m n k align b o e r ↦ allocate-IsMemory m n k align b o i e r
    | writes m n base offset bytes o e r ↦
        subst IsMemory (ap (λ p. p.1) e) (write-IsMemory V m base offset bytes i)
    | deallocates m n base e ↦ subst IsMemory e (deallocate-IsMemory m base i)
  ]

  -- Whatever calls are made on an empty heap of a limit, as long as none panics, the allocations are
  -- disjoint and end before the next free address, their sizes add up to what is counted, and the
  -- count stays within the limit.
  pub reachable-IsMemory : (limit : ℕ) (m : Memory) → Reachable V limit m → IsMemory m
  unfolding new IsDisjoint Below total_size
  reachable-IsMemory limit m start = record {
    disjoint = tt;
    below = tt;
    counted = refl;
    limited = omega arith;
    started = omega arith;
    addressed = omega arith;
  }
  reachable-IsMemory limit n (step r s) = Step-IsMemory _ n s (reachable-IsMemory limit _ r)
