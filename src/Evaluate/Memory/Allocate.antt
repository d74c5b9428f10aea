-- ===== src/Evaluate/Memory/Allocate.antt =====
-- `Memory::allocate`: the three ways an allocation can go.
use nitrate.Prelude.{
  ℕ, ◌+◌, ◌-◌, ◌*◌, ◌/◌, ◌^◌, ◌≤◌, ◌<◌, ◌≡◌, refl, ◌⊎◌, inl, inr, Bool, ◌||◌, ltb, ◌==◌, Bool-cases,
  arith,
}
use nitrate.Prelude.Classes.{nat_eq}
use nitrate.Prelude.Maps.{put}
use nitrate.Prelude.Outcome.{Outcome, ok, err, panic}
use nitrate.Evaluate.Error.{EvalError, memory_limit_exceeded}
use nitrate.Evaluate.Memory.{
  Memory, new_allocation, allocate, insert_at, overflows, capacity_overflows,
}

-- The memory behind an allocation at a base.
abbrev pub inserted : Memory → ℕ → ℕ → Bool → Memory
inserted m base n b = record m {
  allocations = put base (new_allocation n b) m.allocations;
  total_allocated = m.total_allocated + n;
  next_addr = base + n;
}

-- Where an allocation goes.
abbrev pub rounded : ℕ → ℕ → ℕ
rounded n align = (n + align - 1) / align * align

module _ {V : Type 0} where
  abbrev pub Allocated : Memory → ℕ → ℕ → Bool → Outcome (EvalError V) ℕ × Memory → Type 0
  Allocated m n align b r =
      ((r ≡ (ok (rounded m.next_addr align), inserted m (rounded m.next_addr align) n b))
        × (0 < align)
        × (m.total_allocated + n ≤ m.limit)
        × (rounded m.next_addr align + n < 2 ^ 64))
      ⊎ ((r ≡ (err memory_limit_exceeded, m)) × (m.limit < m.total_allocated + n))
      ⊎ (r.0 ≡ panic)

  -- An allocation returns a base behind all others, is refused by the limit, or panics.
  pub allocate_cases :
      (m : Memory) (n align : ℕ) (b : Bool) → Allocated m n align b (allocate m n align b)
  unfolding allocate insert_at
  allocate_cases m n align b = elim (Bool-cases (overflows (m.total_allocated + n))) [
    | inl over ↦ inr (inr (rw over refl))
    | inr fits ↦ elim (Bool-cases (ltb m.limit (m.total_allocated + n))) [
      | inl limited ↦ inr (inl (rw (fits, limited) refl, ground arith))
      | inr within ↦ elim (Bool-cases (overflows (m.next_addr + align) || align == 0)) [
        | inl wrong ↦ inr (inr (rw (fits, within, wrong) refl))
        | inr right ↦ elim (Bool-cases (capacity_overflows n)) [
          | inl large ↦ inr (inr (rw (fits, within, right, large) refl))
          | inr holds ↦ elim (Bool-cases (overflows (rounded m.next_addr align + n))) [
            | inl over ↦ inr (inr (rw (fits, within, right, holds, over) refl))
            | inr ends ↦ inl (
              rw (fits, within, right, holds, ends) refl,
              ground arith,
              ground arith,
              ground arith,
            )
          ]
        ]
      ]
    ]
  ]
