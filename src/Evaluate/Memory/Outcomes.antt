-- ===== src/Evaluate/Memory/Outcomes.antt =====
-- When a read or a write of the heap succeeds.
use nitrate.Prelude.{
  ℕ, ◌+◌, ◌^◌, ◌≤◌, ◌<◌, ◌≡◌, sym, ap, ◌∙◌, ◌↔◌, inl, inr, true, some, List, length, Option-cases,
  arith,
}
use nitrate.Prelude.Classes.{nat_eq}
use nitrate.Prelude.Slices.{take, drop}
use nitrate.Prelude.Maps.{lookup, put}
use nitrate.Prelude.Outcome.{ok}
use nitrate.Evaluate.Memory.{Memory, Allocation, read, read_bytes, write, write_bytes, splice}
use nitrate.Evaluate.Memory.Entries.{size, lookup-Below}
use nitrate.Evaluate.Memory.Invariant.{IsMemory}

abbrev pub written : Memory → ℕ → Allocation → ℕ → List ℕ → Memory
written m base a offset bytes = record m {
  allocations = put base (record a { contents = splice offset bytes a.contents }) m.allocations;
}

module _ {V : Type 0} where
  pub read_ok :
      (m : Memory) (base offset n : ℕ) (bytes : List ℕ)
      → read {V = V} m base offset n ≡ ok bytes
      → (a : Allocation) × (lookup base m.allocations ≡ some a)
        × (offset + n ≤ size a)
        × (bytes ≡ take n (drop offset a.contents))
  unfolding read read_bytes
  read_ok m base offset n bytes e = elim (Option-cases (lookup base m.allocations)) [
    | inl absent ↦ absurd (ground (arith, absent))
    | inr (a, found) ↦ (a, found, ground (arith, found), ground (arith, found))
  ]

  pub read_within :
      (m : Memory) (base offset n : ℕ) (a : Allocation)
      → lookup base m.allocations ≡ some a
      → offset + n < 2 ^ 64
      → offset + n ≤ size a
      → read {V = V} m base offset n ≡ ok (take n (drop offset a.contents))
  unfolding read read_bytes
  read_within m base offset n a found fits h = ground (arith, found)

  pub write_within :
      (m : Memory) (base offset : ℕ) (bytes : List ℕ) (a : Allocation)
      → lookup base m.allocations ≡ some a
      → a.is_mutable ≡ true
      → offset + length bytes < 2 ^ 64
      → offset + length bytes ≤ size a
      → write {V = V} m base offset bytes ≡ (ok tt, written m base a offset bytes)
  unfolding write write_bytes
  write_within m base offset bytes a found mutable fits h = ground (arith, found)

  pub write_ok :
      (m n : Memory) (base offset : ℕ) (bytes : List ℕ)
      → write {V = V} m base offset bytes ≡ (ok tt, n)
      → (a : Allocation) × (lookup base m.allocations ≡ some a)
        × (a.is_mutable ≡ true)
        × (offset + length bytes ≤ size a)
        × (n ≡ written m base a offset bytes)
  unfolding write write_bytes
  write_ok m n base offset bytes e = elim (Option-cases (lookup base m.allocations)) [
    | inl absent ↦ absurd (ground (arith, absent))
    | inr (a, found) ↦
        let mutable : a.is_mutable ≡ true = ground (arith, found) in
        let fits : offset + length bytes < 2 ^ 64 = ground (arith, found) in
        let inside : offset + length bytes ≤ size a = ground (arith, found) in
        let same = write_within m base offset bytes a found mutable fits inside in
        (a, found, mutable, inside, ap (λ p. p.1) (sym e ∙ same))
  ]

  -- In a heap that keeps its invariant, a read succeeds where the allocation covers the range.
  pub read_succeeds_iff :
      (m : Memory) (base offset n : ℕ)
      → IsMemory m
      → ((bytes : List ℕ) × (read {V = V} m base offset n ≡ ok bytes))
        ↔ ((a : Allocation) × (lookup base m.allocations ≡ some a) × (offset + n ≤ size a))
  read_succeeds_iff m base offset n i = (
    λ (bytes, e). let (a, found, inside, _) = read_ok m base offset n bytes e in (a, found, inside),
    λ (a, found, inside).
        let end = lookup-Below m.next_addr base m.allocations a i.below found in
        (_, read_within m base offset n a found (omega (arith, end, i.addressed)) inside),
  )

  -- A write also needs the allocation to be mutable.
  pub write_succeeds_iff :
      (m : Memory) (base offset : ℕ) (bytes : List ℕ)
      → IsMemory m
      → ((n : Memory) × (write {V = V} m base offset bytes ≡ (ok tt, n))) ↔ (
          (a : Allocation) × (lookup base m.allocations ≡ some a)
          × (a.is_mutable ≡ true)
          × (offset + length bytes ≤ size a))
  write_succeeds_iff m base offset bytes i = (
    λ (n, e).
        let (a, found, mutable, inside, _) = write_ok m n base offset bytes e in
        (a, found, mutable, inside),
    λ (a, found, mutable, inside).
        let end = lookup-Below m.next_addr base m.allocations a i.below found in
        (
          _,
          write_within m base offset bytes a found mutable (omega (arith, end, i.addressed)) inside,
        ),
  )
