-- ===== src/Layout/Stride.antt =====
-- The stride: the size rounded up to the alignment.
use nitrate.Prelude.{
  ℕ, ◌+◌, ◌-◌, ◌*◌, ◌/◌, ◌%◌, ◌^◌, ◌≤◌, ◌<◌, ◌≡◌, refl, inl, inr, ◌==◌, Bool-cases, arith,
}
use native.Mathlib.Nat.{mod-lt, zero-mod, div-add-mod', mul-mod_left}
use nitrate.Hir.Ty.{Ty}
use nitrate.Layout.{
  ok, LayoutCtx, checked, next_multiple_of, get_align_of, get_size_of, stride_of, get_stride_of,
}
use nitrate.Layout.Align.{IsAlign, get_align_of-IsAlign}

-- A multiple of `a` that is not below `n`, and the least one.
abbrev pub Rounds : ℕ → ℕ → ℕ → Type 0
Rounds n a s = (s % a ≡ 0) × (n ≤ s) × (s < n + a)

rounded_up : (n a : ℕ) → 0 < a → (n + (a - n % a)) % a ≡ 0
rounded_up n a h =
    let low = mod-lt n h in
    let whole : n + (a - n % a) ≡ (n / a + 1) * a = omega (arith, div-add-mod' n a) in
    rw whole (mul-mod_left (n / a + 1) a)

pub next_multiple_of-Rounds :
    (n a : ℕ) → 0 < a → n + a < 2 ^ 64 → (s : ℕ) × (next_multiple_of n a ≡ ok s) × Rounds n a s
unfolding next_multiple_of checked
next_multiple_of-Rounds n a h small = elim (Bool-cases (n % a == 0)) [
  | inl whole ↦ (n, ground (arith, whole), (ground arith, omega arith, omega arith))
  | inr part ↦
      let low = mod-lt n h in
      (n + (a - n % a), ground arith, (rounded_up n a h, omega arith, ground arith))
]

align_pos : (a : ℕ) → IsAlign a → (0 < a) × (a ≤ 16)
align_pos a h = ground arith

-- A type with a size and an alignment has a stride: the least multiple of the alignment that is
-- not below the size, unless that leaves 64 bits.
pub get_stride_of-Rounds :
    (f : ℕ) (ctx : LayoutCtx) (t : Ty) (n a : ℕ)
    → get_size_of f ctx t ≡ ok n
    → get_align_of f ctx t ≡ ok a
    → n + 16 < 2 ^ 64
    → (s : ℕ) × (get_stride_of f ctx t ≡ ok s) × Rounds n a s
unfolding get_stride_of stride_of
get_stride_of-Rounds f ctx t n a p q small =
    let (pos, low) = align_pos a (get_align_of-IsAlign f ctx t a q) in
    let (s, e, r) = next_multiple_of-Rounds n a pos (omega arith) in
    elim (Bool-cases (n == 0)) [
      | inl none ↦ (0, rw (p, q, none) refl, (zero-mod a, ground arith, omega arith))
      | inr some ↦ (s, rw (p, q, some) e, r)
    ]
