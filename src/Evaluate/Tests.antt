-- ===== src/Evaluate/Tests.antt =====
-- Runs of the heap, and the theorems on them.
use nitrate.Prelude.{
  ℕ, ◌+◌, ◌%◌, ◌≤◌, ◌<◌, ◌≡◌, refl, ◌↔◌, true, false, some, [], ◌∷◌, ◌==◌, if◌then◌else◌, replicate,
  arith,
}
use nitrate.Prelude.Classes.{nat_eq}
use nitrate.Prelude.Maps.{lookup}
use nitrate.Prelude.Outcome.{ok, err, panic}
use nitrate.Evaluate.Error.{
  type_error, memory_limit_exceeded, invalid_pointer, out_of_bounds_access,
}
use nitrate.Evaluate.Memory.{
  Memory, Allocation, new, new_allocation, allocate, insert_at, read, read_bytes, write,
  write_bytes, splice, deallocate, is_valid_pointer, allocation_size, allocation_mutable,
}
use nitrate.Evaluate.Memory.Entries.{size}
use nitrate.Evaluate.Memory.Invariant.{IsMemory}
use nitrate.Evaluate.Memory.Reachable.{
  Reachable, start, step, allocates, writes, reachable-IsMemory,
}
use nitrate.Evaluate.Memory.Outcomes.{write_succeeds_iff}
use nitrate.Evaluate.Memory.Bounds.{allocate_succeeds}
use nitrate.Evaluate.Memory.Refinement.{view, fill, view-allocate, view-write}

-- A heap of at most 16 bytes with an allocation of four.
abbrev start_heap : Memory
start_heap = new 16

abbrev heap : Memory
heap = record {
  allocations = (4096, record { contents = 0 ∷ 0 ∷ 0 ∷ 0 ∷ []; is_mutable = true }) ∷ [];
  next_addr = 4100;
  total_allocated = 4;
  limit = 16;
}

abbrev written_heap : Memory
written_heap = record heap {
  allocations = (4096, record { contents = 0 ∷ 7 ∷ 8 ∷ 0 ∷ []; is_mutable = true }) ∷ [];
}

heap-allocate : allocate {V = ℕ} start_heap 4 8 true ≡ (ok 4096, heap)
unfolding new new_allocation allocate insert_at
heap-allocate = refl

heap-write : write {V = ℕ} heap 4096 1 (7 ∷ 8 ∷ []) ≡ (ok tt, written_heap)
unfolding write write_bytes splice
heap-write = refl

heap-read : read {V = ℕ} written_heap 4096 1 2 ≡ ok (7 ∷ 8 ∷ [])
unfolding read read_bytes
heap-read = refl

heap_errors :
    ((allocate {V = ℕ} heap 13 8 true).0 ≡ err memory_limit_exceeded)
    × ((allocate {V = ℕ} heap 1 0 true).0 ≡ panic)
    × (read {V = ℕ} heap 4097 0 1 ≡ err invalid_pointer)
    × (read {V = ℕ} heap 4096 3 2 ≡ err out_of_bounds_access)
    × (write {V = ℕ} (record heap { allocations = (4096, new_allocation 4 false) ∷ [] }) 4096 0 []
        ≡ (err type_error, record heap { allocations = (4096, new_allocation 4 false) ∷ [] }))
    × (is_valid_pointer (deallocate heap 4096) 4096 ≡ false)
    × (allocation_size heap 4096 ≡ some 4)
    × (allocation_mutable heap 4096 ≡ some true)
unfolding allocate insert_at read read_bytes write new_allocation deallocate is_valid_pointer
    allocation_size allocation_mutable
heap_errors = (refl, refl, refl, refl, refl, refl, refl, refl)

heap-Reachable : Reachable ℕ 16 heap
heap-Reachable = step start (allocates start_heap heap 4 8 true (ok 4096) heap-allocate tt)

heap-IsMemory : IsMemory heap
heap-IsMemory = reachable-IsMemory ℕ 16 heap heap-Reachable

written-IsMemory : IsMemory written_heap
written-IsMemory =
    reachable-IsMemory ℕ 16 written_heap
      (step heap-Reachable (writes heap written_heap 4096 1 (7 ∷ 8 ∷ []) (ok tt) heap-write tt))

reachable-IsMemory_example : IsMemory heap
reachable-IsMemory_example = reachable-IsMemory ℕ 16 heap heap-Reachable

view-allocate_example : view heap 4097 ≡ fill 4096 (replicate 4 0) (view start_heap) 4097
view-allocate_example =
    view-allocate start_heap heap 4096 4 8 true (reachable-IsMemory ℕ 16 start_heap start)
      heap-allocate 4097

view-write_example : view written_heap 4098 ≡ fill (4096 + 1) (7 ∷ 8 ∷ []) (view heap) 4098
view-write_example = view-write heap written_heap 4096 1 (7 ∷ 8 ∷ []) heap-IsMemory heap-write 4098

write_succeeds_iff_example :
    ((n : Memory) × (write {V = ℕ} heap 4096 1 (7 ∷ 8 ∷ []) ≡ (ok tt, n))) ↔ (
      (a : Allocation) × (lookup 4096 heap.allocations ≡ some a)
      × (a.is_mutable ≡ true)
      × (1 + 2 ≤ size a))
write_succeeds_iff_example = write_succeeds_iff heap 4096 1 (7 ∷ 8 ∷ []) heap-IsMemory

allocate_succeeds_example :
    (base : ℕ) × (k : Memory) × (allocate {V = ℕ} heap 3 8 false ≡ (ok base, k))
    × (base % 8 ≡ 0)
    × (4100 ≤ base)
    × (base < 4100 + 8)
    × ((c : ℕ)
        → lookup c k.allocations
          ≡ (if base == c then some (new_allocation 3 false) else lookup c heap.allocations))
allocate_succeeds_example =
    allocate_succeeds heap 3 8 false heap-IsMemory (omega arith) (omega arith) (omega arith)
      (omega arith) (omega arith)

abbrev empty_heap : Memory
empty_heap = record {
  allocations = (4096, record { contents = []; is_mutable = true }) ∷ [];
  next_addr = 4096;
  total_allocated = 0;
  limit = 16;
}

empty_heap-allocate : allocate {V = ℕ} start_heap 0 8 true ≡ (ok 4096, empty_heap)
unfolding new new_allocation allocate insert_at
empty_heap-allocate = refl

shared_heap-allocate : allocate {V = ℕ} empty_heap 4 8 true ≡ (ok 4096, heap)
unfolding new_allocation allocate insert_at
shared_heap-allocate = refl
