-- ===== src/Layout/Known.antt =====
-- A type whose size is known has a known alignment.
use nitrate.Prelude.{
  ℕ, zero, suc, ◌+◌, ◌≡◌, refl, sym, subst, true, false, none, some, List, [], ◌∷◌, ◌==◌,
  if◌then◌else◌, get_elem?, max,
}
use nitrate.Hir.Ty.{
  Ty, array, tuple, struct, enum, type_alias, refine, unresolved_array, unresolved_refine,
}
use nitrate.Layout.{
  Layout, ok, err, panic, out_of_fuel, ◌>>=◌, LayoutCtx, elements, is_packed, field_types,
  variant_types, find_def, max_over, place_padded, place_packed, checked, next_multiple_of,
  stride_of, get_align_of, get_size_of,
}

abbrev IsKnown : Layout → Type 0
IsKnown (ok a) = Unit
IsKnown _ = ⊥

known : (l : Layout) → IsKnown l → (a : ℕ) × (l ≡ ok a)
known (ok a) h = (a, refl)
known (err _) h = elim h [ ]
known panic h = elim h [ ]
known out_of_fuel h = elim h [ ]

bind-IsKnown :
    (l : Layout) (k : ℕ → Layout) → IsKnown (l >>= k) → (a : ℕ) × IsKnown l × IsKnown (k a)
bind-IsKnown (ok a) k h = (a, tt, h)
bind-IsKnown (err _) k h = elim h [ ]
bind-IsKnown panic k h = elim h [ ]
bind-IsKnown out_of_fuel k h = elim h [ ]

find_def-IsKnown {ℓ} :
    {A : Type ℓ} (ds : List A) (i : ℕ) (k l : A → Layout)
    → ((d : A) → IsKnown (k d) → IsKnown (l d))
    → IsKnown (find_def ds i k)
    → IsKnown (find_def ds i l)
find_def-IsKnown ds i k l h =
    elim (get_elem? ds i)
      as (λ o.
        IsKnown (elim o [ none ↦ panic | some d ↦ k d ])
        → IsKnown (elim o [ none ↦ panic | some d ↦ l d ])) [ none ↦ λ p. p | some d ↦ h d ]

-- Every type of a list is known.
AllKnown : (Ty → Layout) → List Ty → Type 0
AllKnown g [] = Unit
AllKnown g (t ∷ ts) = IsKnown (g t) × AllKnown g ts

place_padded-AllKnown :
    (g h : Ty → Layout) (o : ℕ) (ts : List Ty) → IsKnown (place_padded g h o ts) → AllKnown g ts
unfolding place_padded AllKnown
place_padded-AllKnown g h o [] p = tt
place_padded-AllKnown g h o (t ∷ ts) p =
    let (n, size, p1) = bind-IsKnown (g t) _ p in
    let (a, _, p2) = bind-IsKnown (h t) _ p1 in
    let (start, _, p3) = bind-IsKnown (next_multiple_of o a) _ p2 in
    let (end, _, p4) = bind-IsKnown (checked (start + n)) _ p3 in
    (size, place_padded-AllKnown g h end ts p4)

max_over-AllKnown :
    (g : Ty → Layout) (n : ℕ) (ts : List Ty) → IsKnown (max_over g n ts) → AllKnown g ts
unfolding max_over AllKnown
max_over-AllKnown g n [] p = tt
max_over-AllKnown g n (t ∷ ts) p =
    let (m, size, p1) = bind-IsKnown (g t) _ p in (size, max_over-AllKnown g (max n m) ts p1)

max_over-IsKnown :
    (g h : Ty → Layout) (n : ℕ) (ts : List Ty)
    → ((t : Ty) → IsKnown (g t) → IsKnown (h t))
    → AllKnown g ts
    → IsKnown (max_over h n ts)
unfolding max_over AllKnown
max_over-IsKnown g h n [] f p = tt
max_over-IsKnown g h n (t ∷ ts) f p =
    let (m, e) = known (h t) (f t p.0) in rw e (max_over-IsKnown g h (max n m) ts f p.1)

get_align_of-IsKnown :
    (f : ℕ) (ctx : LayoutCtx) (t : Ty)
    → IsKnown (get_size_of f ctx t)
    → IsKnown (get_align_of f ctx t)
unfolding get_size_of get_align_of stride_of is_packed
get_align_of-IsKnown zero ctx t p = p
get_align_of-IsKnown (suc f) ctx (array t n) p =
    let (s, stride, _) =
      bind-IsKnown (stride_of (get_size_of f ctx t) (get_align_of f ctx t)) _ p in
    let (m, size, _) = bind-IsKnown (get_size_of f ctx t) _ stride in
    elim (n == 0) as (λ b. IsKnown (if b then ok 1 else get_align_of f ctx t)) [
      | true ↦ tt
      | false ↦ get_align_of-IsKnown f ctx t size
    ]
get_align_of-IsKnown (suc f) ctx (tuple ts) p =
    max_over-IsKnown (get_size_of f ctx) (get_align_of f ctx) 1 (elements ts)
      (get_align_of-IsKnown f ctx) (place_padded-AllKnown _ (get_align_of f ctx) 0 (elements ts) p)
get_align_of-IsKnown (suc f) ctx (struct i) p =
    find_def-IsKnown ctx.structs i _ _
      (λ d.
        elim (is_packed d)
          as (λ b.
            IsKnown (
              if b
              then place_packed (get_size_of f ctx) 0 (field_types d)
              else place_padded (get_size_of f ctx) (get_align_of f ctx) 0 (field_types d))
            → IsKnown (if b then ok 1 else max_over (get_align_of f ctx) 1 (field_types d))) [
              | true ↦ λ _. tt
              | false ↦ λ q.
                  max_over-IsKnown (get_size_of f ctx) (get_align_of f ctx) 1 (field_types d)
                    (get_align_of-IsKnown f ctx)
                    (place_padded-AllKnown _ (get_align_of f ctx) 0 (field_types d) q)
            ])
      p
get_align_of-IsKnown (suc f) ctx (enum i) p =
    find_def-IsKnown ctx.enums i _ _
      (λ d q.
        let (m, sizes, _) = bind-IsKnown (max_over (get_size_of f ctx) 0 (variant_types d)) _ q in
        let aligned =
          max_over-IsKnown (get_size_of f ctx) (get_align_of f ctx) 1 (variant_types d)
            (get_align_of-IsKnown f ctx)
            (max_over-AllKnown (get_size_of f ctx) 0 (variant_types d) sizes) in
        let (a, e) = known (max_over (get_align_of f ctx) 1 (variant_types d)) aligned in rw e tt)
      p
get_align_of-IsKnown (suc f) ctx (type_alias i) p =
    find_def-IsKnown ctx.aliases i _ _ (λ d. get_align_of-IsKnown f ctx d.type_id) p
get_align_of-IsKnown (suc f) ctx (refine t _ _) p = get_align_of-IsKnown f ctx t p
get_align_of-IsKnown (suc f) ctx (unresolved_array t _) p = absurd p
get_align_of-IsKnown (suc f) ctx (unresolved_refine t _ _) p = get_align_of-IsKnown f ctx t p
get_align_of-IsKnown (suc f) ctx _ p = p

-- A type that has a size has an alignment.
pub get_size_of-get_align_of :
    (f : ℕ) (ctx : LayoutCtx) (t : Ty) (n : ℕ)
    → get_size_of f ctx t ≡ ok n
    → (a : ℕ) × (get_align_of f ctx t ≡ ok a)
get_size_of-get_align_of f ctx t n e =
    known _ (get_align_of-IsKnown f ctx t (subst IsKnown (sym e) tt))
