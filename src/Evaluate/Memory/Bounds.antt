-- ===== src/Evaluate/Memory/Bounds.antt =====
-- Where an allocation goes, and what it leaves as it was.
use nitrate.Prelude.{
  ℕ, ◌+◌, ◌-◌, ◌*◌, ◌/◌, ◌%◌, ◌^◌, ◌≤◌, ◌<◌, ◌≡◌, refl, sym, ap, ◌∙◌, inl, inr, Bool, some, ◌==◌,
  if◌then◌else◌, Bool-cases, arith,
}
use native.Mathlib.Nat.{div-eq_of_lt-le}
use nitrate.Prelude.Classes.{nat_eq}
use nitrate.Prelude.Rounding.{round_up-mod, le-round_up, round_up-lt}
use nitrate.Prelude.Maps.{lookup, lookup-remove_ne}
use nitrate.Prelude.Outcome.{ok}
use nitrate.Evaluate.Memory.{Memory, new_allocation, allocate, insert_at}
use nitrate.Evaluate.Memory.Allocate.{rounded, inserted, allocate_cases}
use nitrate.Evaluate.Memory.Invariant.{IsMemory}

lookup-inserted :
    (m : Memory) (base n c : ℕ) (b : Bool)
    → lookup c (inserted m base n b).allocations
      ≡ (if base == c then some (new_allocation n b) else lookup c m.allocations)
lookup-inserted m base n c b = elim (Bool-cases (base == c)) [
  | inl same ↦ rw same refl
  | inr other ↦ rw other (lookup-remove_ne base c m.allocations other)
]

module _ {V : Type 0} where
  -- An allocation of at most `isize::MAX` bytes, within the limit and the address space, succeeds. Its
  -- base is the next aligned address, it holds zeros, and what stands under every other base stays.
  -- What stood under that base, an empty allocation, is replaced.
  pub allocate_succeeds :
      (m : Memory) (n align : ℕ) (b : Bool)
      → IsMemory m
      → 0 < align
      → n < 2 ^ 63
      → m.total_allocated + n ≤ m.limit
      → m.limit < 2 ^ 64
      → m.next_addr + align + n < 2 ^ 64
      → (base : ℕ) × (k : Memory) × (allocate {V = V} m n align b ≡ (ok base, k))
        × (base % align ≡ 0)
        × (m.next_addr ≤ base)
        × (base < m.next_addr + align)
        × ((c : ℕ)
            → lookup c k.allocations
              ≡ (if base == c then some (new_allocation n b) else lookup c m.allocations))
  unfolding allocate insert_at
  allocate_succeeds m n align b i pos holds within small fits =
      let low = le-round_up m.next_addr align pos in
      let high = round_up-lt m.next_addr align pos in
      (
        rounded m.next_addr align,
        inserted m (rounded m.next_addr align) n b,
        ground (arith, low, high, holds),
        round_up-mod m.next_addr align,
        low,
        high,
        λ c. lookup-inserted m (rounded m.next_addr align) n c b,
      )

  allocate-base :
      (m n : Memory) (k align base : ℕ) (b : Bool)
      → allocate {V = V} m k align b ≡ (ok base, n)
      → (base ≡ rounded m.next_addr align) × (n.next_addr ≡ base + k) × (0 < align)
  allocate-base m n k align base b e = elim (allocate_cases {V = V} m k align b) [
    | inl (q, pos, _, _) ↦ ground (arith, pos, sym e ∙ q)
    | inr (inl (q, _)) ↦ absurd (ground arith)
    | inr (inr q) ↦ absurd (ground arith)
  ]

rounded_twice : (n align : ℕ) → 0 < align → rounded (rounded n align + 0) align ≡ rounded n align
rounded_twice n align h =
    let q = (n + align - 1) / align in
    let whole : (q + 1) * align ≡ q * align + align = omega arith in
    ap (λ p. p * align)
      (div-eq_of_lt-le {k = q} align {m = q * align + 0 + align - 1} (omega arith)
        (omega (arith, whole)))

module _ {V : Type 0} where
  -- Behind an empty allocation, the next one of the same alignment gets the same base.
  allocate_empty-base :
      (m n k : Memory) (size align base next : ℕ) (b c : Bool)
      → allocate {V = V} m 0 align b ≡ (ok base, n)
      → allocate {V = V} n size align c ≡ (ok next, k)
      → next ≡ base
  allocate_empty-base m n k size align base next b c e f =
      let (p, q, pos) = allocate-base m n 0 align base b e in
      let (p', _, _) = allocate-base n k size align next c f in
      p'
      ∙ ap (λ a. rounded a align) (q ∙ ap (λ a. a + 0) p)
      ∙ rounded_twice m.next_addr align pos
      ∙ sym p
