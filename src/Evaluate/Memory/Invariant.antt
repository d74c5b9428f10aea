-- ===== src/Evaluate/Memory/Invariant.antt =====
-- The invariant of the heap, and the calls that keep it.
use nitrate.Prelude.{
  ℕ, ◌+◌, ◌^◌, ◌≤◌, ◌<◌, ◌≡◌, inl, inr, Bool, true, false, some, List, ltb, length, length-append,
  length-replicate, Option-cases, Bool-cases, arith,
}
use nitrate.Prelude.Classes.{nat_eq}
use nitrate.Prelude.Slices.{length-take, length-drop}
use nitrate.Prelude.Maps.{lookup, put}
use nitrate.Prelude.Outcome.{err}
use nitrate.Evaluate.Memory.{
  Memory, Allocation, new_allocation, write, write_bytes, splice, deallocate, overflows,
}
use nitrate.Evaluate.Memory.Entries.{
  size, Below, IsDisjoint, total_size, mono-Below, remove-Below, lookup-Below, remove-IsDisjoint,
  lookup-Apart, Below-Apart, total_size-remove, total_size-remove_behind,
}
use nitrate.Evaluate.Error.{type_error}
use nitrate.Evaluate.Memory.Allocate.{inserted}
use nitrate.Prelude.{if◌then◌else◌}

-- The ranges of the allocations are disjoint and end before the next free address, their sizes are
-- what is counted, and the count is within the limit.
pub record IsMemory (m : Memory) : Type 0 where
  pub disjoint : IsDisjoint m.allocations
  pub below : Below m.next_addr m.allocations
  pub counted : m.total_allocated ≡ total_size m.allocations
  pub limited : m.total_allocated ≤ m.limit
  pub started : 4096 ≤ m.next_addr
  pub addressed : m.next_addr < 2 ^ 64

replaced-IsMemory :
    (m : Memory) (k : ℕ) (a b : Allocation)
    → IsMemory m
    → lookup k m.allocations ≡ some a
    → size b ≡ size a
    → IsMemory (record m { allocations = put k b m.allocations })
unfolding IsDisjoint Below total_size
replaced-IsMemory m k a b i h s = record {
  disjoint = (
    rw s (lookup-Apart k m.allocations a i.disjoint h),
    remove-IsDisjoint k m.allocations i.disjoint,
  );
  below = (
    rw s (lookup-Below m.next_addr k m.allocations a i.below h),
    remove-Below m.next_addr k m.allocations i.below,
  );
  counted = omega (arith, s, i.counted, total_size-remove k m.allocations a h);
  limited = i.limited;
  started = i.started;
  addressed = i.addressed;
}

pub deallocate-IsMemory : (m : Memory) (k : ℕ) → IsMemory m → IsMemory (deallocate m k)
unfolding deallocate
deallocate-IsMemory m k i = elim (Option-cases (lookup k m.allocations)) [
  | inl absent ↦ rw (absent, deallocate) i
  | inr (a, found) ↦
      rw (found, deallocate)
        (record {
          disjoint = remove-IsDisjoint k m.allocations i.disjoint;
          below = remove-Below m.next_addr k m.allocations i.below;
          counted = omega (arith, i.counted, total_size-remove k m.allocations a found);
          limited = omega (arith, i.limited);
          started = i.started;
          addressed = i.addressed;
        })
]

pub length-splice :
    (offset : ℕ) (bytes contents : List ℕ)
    → offset + length bytes ≤ length contents
    → length (splice offset bytes contents) ≡ length contents
unfolding splice
length-splice offset bytes contents h =
    simp
      (
        length-append,
        length-drop (offset + length bytes) contents,
        length-take offset contents (omega arith),
      )
      (omega arith)

pub inserted-IsMemory :
    (m : Memory) (k n : ℕ) (b : Bool)
    → IsMemory m
    → m.next_addr ≤ k
    → m.total_allocated + n ≤ m.limit
    → k + n < 2 ^ 64
    → IsMemory (inserted m k n b)
unfolding IsDisjoint Below total_size new_allocation
inserted-IsMemory m k n b i l h r = record {
  disjoint = (
    rw (length-replicate {A = ℕ} n 0) (
        Below-Apart k n m.allocations i.disjoint
          (mono-Below m.next_addr k m.allocations l i.below)),
    remove-IsDisjoint k m.allocations i.disjoint,
  );
  below = (
    rw (length-replicate {A = ℕ} n 0) (omega arith),
    remove-Below (k + n) k m.allocations
        (mono-Below m.next_addr (k + n) m.allocations (omega (arith, l)) i.below),
  );
  counted = omega (
    arith,
    length-replicate {A = ℕ} n 0,
    i.counted,
    total_size-remove_behind k m.allocations (mono-Below m.next_addr k m.allocations l i.below),
  );
  limited = h;
  started = omega (arith, l, i.started);
  addressed = r;
}

module _ (V : Type 0) where
  write_bytes-IsMemory :
      (m : Memory) (k offset : ℕ) (a : Allocation) (bytes : List ℕ)
      → IsMemory m
      → lookup k m.allocations ≡ some a
      → IsMemory (write_bytes {V = V} m k a offset bytes).1
  unfolding write_bytes
  write_bytes-IsMemory m k offset a bytes i h =
      elim (Bool-cases (overflows (offset + length bytes))) [
        | inl over ↦ rw over i
        | inr fits ↦ elim (Bool-cases (ltb (length a.contents) (offset + length bytes))) [
          | inl out ↦ rw (fits, out) i
          | inr within ↦
              rw (fits, within)
                (replaced-IsMemory m k a _ i h
                  (length-splice offset bytes a.contents (ground arith)))
        ]
      ]

  pub write-IsMemory :
      (m : Memory) (k offset : ℕ) (bytes : List ℕ)
      → IsMemory m
      → IsMemory (write {V = V} m k offset bytes).1
  unfolding write
  write-IsMemory m k offset bytes i = elim (Option-cases (lookup k m.allocations)) [
    | inl absent ↦ rw (absent, write) i
    | inr (a, found) ↦
        rw (found, write)
          (elim a.is_mutable
            as (λ v.
              IsMemory
                (if v then write_bytes {V = V} m k a offset bytes else (err type_error, m)).1) [
                  | true ↦ write_bytes-IsMemory m k offset a bytes i found
                  | false ↦ i
                ])
  ]
