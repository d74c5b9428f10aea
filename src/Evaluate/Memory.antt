-- ===== src/Evaluate/Memory.antt =====
-- memory.rs: the abstract heap of the evaluator. `u64` and `usize` have 64 bits, and arithmetic
-- that leaves them panics.
pub mod Entries
pub mod Allocate
pub mod Invariant
pub mod Reachable
pub mod Outcomes
pub mod Refinement
pub mod Bounds
use nitrate.Prelude.{
  ℕ, ◌+◌, ◌-◌, ◌*◌, ◌/◌, ◌^◌, Bool, ◌||◌, Option, none, some, List, [], ◌++◌, ltb, leb, ◌==◌,
  if◌then◌else◌, length, replicate,
}
use nitrate.Prelude.Classes.{nat_eq}
use nitrate.Prelude.Slices.{take, drop}
use nitrate.Prelude.Maps.{lookup, remove, put, contains_key}
use nitrate.Prelude.Outcome.{Outcome, ok, err, panic}
use nitrate.Evaluate.Error.{
  EvalError, type_error, memory_limit_exceeded, invalid_pointer, out_of_bounds_access,
}

pub record Allocation : Type 0 where
  pub contents : List ℕ
  pub is_mutable : Bool

-- `vec![0u8; size]` panics on more than `isize::MAX` bytes; `insert_at` asks before it makes one.
abbrev pub capacity_overflows : ℕ → Bool
capacity_overflows size = leb (2 ^ 63) size

unfoldable pub new_allocation : ℕ → Bool → Allocation
new_allocation size is_mutable = record { contents = replicate size 0; is_mutable = is_mutable }

pub record Memory : Type 0 where
  pub allocations : List (ℕ × Allocation)
  pub next_addr : ℕ
  pub total_allocated : ℕ
  pub limit : ℕ

unfoldable pub new : ℕ → Memory
new limit = record { allocations = []; next_addr = 4096; total_allocated = 0; limit = limit }

-- Does a sum leave the 64 bits of its type?
abbrev pub overflows : ℕ → Bool
overflows n = leb (2 ^ 64) n

-- `copy_from_slice`.
unfoldable pub splice : ℕ → List ℕ → List ℕ → List ℕ
splice offset bytes contents =
    take offset contents ++ bytes ++ drop (offset + length bytes) contents

module _ {V : Type 0} where
  -- A panic on the size comes before the insertion, one on the address behind the new allocation
  -- after it.
  unfoldable pub insert_at : Memory → ℕ → ℕ → Bool → Outcome (EvalError V) ℕ × Memory
  unfolding new_allocation
  insert_at m aligned size is_mutable =
      let m' = record m {
        allocations = put aligned (new_allocation size is_mutable) m.allocations;
        total_allocated = m.total_allocated + size;
      } in
      if capacity_overflows size
      then (panic, m)
      else if overflows (aligned + size)
      then (panic, m')
      else (ok aligned, record m' { next_addr = aligned + size })

  unfoldable pub allocate : Memory → ℕ → ℕ → Bool → Outcome (EvalError V) ℕ × Memory
  unfolding insert_at
  allocate m size align is_mutable =
      if overflows (m.total_allocated + size)
      then (panic, m)
      else if ltb m.limit (m.total_allocated + size)
      then (err memory_limit_exceeded, m)
      else if overflows (m.next_addr + align) || align == 0
      then (panic, m)
      else insert_at m ((m.next_addr + align - 1) / align * align) size is_mutable

  unfoldable pub read_bytes : Allocation → ℕ → ℕ → Outcome (EvalError V) (List ℕ)
  read_bytes a offset size =
      if overflows (offset + size)
      then panic
      else if ltb (length a.contents) (offset + size)
      then err out_of_bounds_access
      else ok (take size (drop offset a.contents))

  unfoldable pub read : Memory → ℕ → ℕ → ℕ → Outcome (EvalError V) (List ℕ)
  unfolding read_bytes
  read m base offset size = elim (lookup base m.allocations) [
    | none ↦ err invalid_pointer
    | some a ↦ read_bytes a offset size
  ]

  unfoldable pub write_bytes :
      Memory → ℕ → Allocation → ℕ → List ℕ → Outcome (EvalError V) (Unit {0}) × Memory
  unfolding splice
  write_bytes m base a offset bytes =
      if overflows (offset + length bytes)
      then (panic, m)
      else if ltb (length a.contents) (offset + length bytes)
      then (err out_of_bounds_access, m)
      else (
        ok tt,
        record m {
          allocations =
              put base (record a { contents = splice offset bytes a.contents }) m.allocations;
        },
      )

  unfoldable pub write : Memory → ℕ → ℕ → List ℕ → Outcome (EvalError V) (Unit {0}) × Memory
  unfolding write_bytes
  write m base offset bytes = elim (lookup base m.allocations) [
    | none ↦ (err invalid_pointer, m)
    | some a ↦ if a.is_mutable then write_bytes m base a offset bytes else (err type_error, m)
  ]

unfoldable pub is_valid_pointer : Memory → ℕ → Bool
is_valid_pointer m base = contains_key base m.allocations

unfoldable pub allocation_size : Memory → ℕ → Option ℕ
allocation_size m base = elim (lookup base m.allocations) [
  | none ↦ none
  | some a ↦ some (length a.contents)
]

unfoldable pub allocation_mutable : Memory → ℕ → Option Bool
allocation_mutable m base = elim (lookup base m.allocations) [
  | none ↦ none
  | some a ↦ some a.is_mutable
]

-- `saturating_sub`.
unfoldable pub deallocate : Memory → ℕ → Memory
deallocate m base = elim (lookup base m.allocations) [
  | none ↦ m
  | some a ↦ record m {
    allocations = remove base m.allocations;
    total_allocated = m.total_allocated - length a.contents;
  }
]
