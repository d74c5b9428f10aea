-- ===== src/Evaluate/Memory/Refinement.antt =====
-- The heap of the evaluator as one array of bytes, and its calls as changes of that array.
use nitrate.Prelude.{
  ℕ, ◌+◌, ◌-◌, ◌≤◌, ◌<◌, ◌≡◌, sym, ap, ◌∙◌, inl, inr, Bool, ◌&&◌, Option, none, some, List, ◌++◌,
  ltb, leb, if◌then◌else◌, length, get_elem?, replicate, length-append, arith,
}
use nitrate.Prelude.Classes.{nat_eq}
use nitrate.Prelude.Rounding.{le-round_up}
use nitrate.Prelude.Slices.{
  take, drop, length-take, length-drop, get_elem?-take, get_elem?-drop, get_elem?-append,
}
use nitrate.Prelude.Maps.{lookup}
use nitrate.Prelude.Outcome.{ok}
use nitrate.Evaluate.Memory.{
  Memory, Allocation, new_allocation, allocate, read, read_bytes, write, write_bytes, splice,
  deallocate,
}
use nitrate.Evaluate.Memory.Entries.{
  size, load, mono-Below, load-lookup, load-remove, load-remove_behind,
}
use nitrate.Evaluate.Memory.Allocate.{rounded, inserted, allocate_cases}
use nitrate.Evaluate.Memory.Outcomes.{read_ok, write_ok}
use nitrate.Evaluate.Memory.Invariant.{IsMemory, length-splice}

-- An array of bytes: none stands where nothing is allocated.
abbrev pub Bytes : Type 0
Bytes = ℕ → Option ℕ

abbrev within : ℕ → ℕ → ℕ → Bool
within lo n x = leb lo x && ltb x (lo + n)

unfoldable pub fill : ℕ → List ℕ → Bytes → Bytes
fill lo bytes f x = if within lo (length bytes) x then get_elem? bytes (x - lo) else f x

unfoldable pub erase : ℕ → ℕ → Bytes → Bytes
erase lo n f x = if within lo n x then none else f x

abbrev pub view : Memory → Bytes
view m = load m.allocations

get_elem?-splice :
    (offset : ℕ) (bytes contents : List ℕ) (i : ℕ)
    → offset + length bytes ≤ length contents
    → get_elem? (splice offset bytes contents) i ≡ (
        if within offset (length bytes) i
        then get_elem? bytes (i - offset)
        else get_elem? contents i)
unfolding splice
get_elem?-splice offset bytes contents i h =
    let skipped : length (take offset contents) ≡ offset =
      length-take offset contents (omega arith) in
    rw
      (
        get_elem?-append (take offset contents ++ bytes),
        get_elem?-append (take offset contents),
        length-append (take offset contents),
        skipped,
        get_elem?-drop (offset + length bytes) _ contents,
      )
      (ground (
        arith,
        get_elem?-take offset i contents,
        ap (get_elem? contents) {x = offset + length bytes + (i - (offset + length bytes))} {y = i},
      ))

-- A returned allocation fills its range with zeros.
pub view-allocate :
    {V : Type 0} (m n : Memory) (base k align : ℕ) (b : Bool)
    → IsMemory m
    → allocate {V = V} m k align b ≡ (ok base, n)
    → (x : ℕ) → view n x ≡ fill base (replicate k 0) (view m) x
unfolding load fill new_allocation
view-allocate {V} m n base k align b i e x = elim (allocate_cases {V = V} m k align b) [
  | inl (q, pos, limited, ends) ↦
      let same : base ≡ rounded m.next_addr align = ground arith in
      let after : n ≡ inserted m (rounded m.next_addr align) k b = ap (λ p. p.1) (sym e ∙ q) in
      rw (same, after)
        (ground (
          arith,
          load-remove_behind (rounded m.next_addr align) x m.allocations i.disjoint (
              mono-Below m.next_addr (rounded m.next_addr align) m.allocations
                (le-round_up m.next_addr align pos) i.below),
        ))
  | inr (inl (q, _)) ↦ absurd (ground arith)
  | inr (inr q) ↦ absurd (ground arith)
]

-- A write that returns replaces the bytes at its offset.
pub view-write :
    {V : Type 0} (m n : Memory) (base offset : ℕ) (bytes : List ℕ)
    → IsMemory m
    → write {V = V} m base offset bytes ≡ (ok tt, n)
    → (x : ℕ) → view n x ≡ fill (base + offset) bytes (view m) x
unfolding load fill write write_bytes
view-write m n base offset bytes i e x =
    let (a, found, mutable, inside, after) = write_ok m n base offset bytes e in
    let e' : x - base - offset ≡ x - (base + offset) = omega arith in
    rw after (
      ground (
        arith,
        load-remove base x m.allocations a i.disjoint found,
        load-lookup base x m.allocations a i.disjoint found,
        get_elem?-splice offset bytes a.contents (x - base) inside,
        length-splice offset bytes a.contents inside,
        ap (get_elem? bytes) e',
      ))

-- Deallocation takes the bytes of the allocation.
view-deallocate :
    (m : Memory) (base : ℕ) (a : Allocation)
    → IsMemory m
    → lookup base m.allocations ≡ some a
    → (x : ℕ) → view (deallocate m base) x ≡ erase base (size a) (view m) x
unfolding erase deallocate
view-deallocate m base a i e x =
    rw (e, deallocate) (load-remove base x m.allocations a i.disjoint e)

-- What is read is what stands in the array.
pub read-view :
    {V : Type 0} (m : Memory) (base offset n : ℕ) (bytes : List ℕ)
    → IsMemory m
    → read {V = V} m base offset n ≡ ok bytes
    → (length bytes ≡ n) × ((k : ℕ) → k < n → get_elem? bytes k ≡ view m (base + offset + k))
unfolding read read_bytes
read-view m base offset n bytes i e =
    let (a, found, inside, same) = read_ok m base offset n bytes e in
    rw same (
      length-take n (drop offset a.contents) (omega (arith, length-drop offset a.contents)),
      λ k h.
          let e' : base + offset + k - base ≡ offset + k = omega arith in
          let held =
            load-lookup base (base + offset + k) m.allocations a i.disjoint found (ground arith) in
          get_elem?-take n k (drop offset a.contents) h
          ∙ get_elem?-drop offset k a.contents
          ∙ ap (get_elem? a.contents) (sym e')
          ∙ sym held,
    )
