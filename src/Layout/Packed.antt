-- ===== src/Layout/Packed.antt =====
-- Packing a struct saves its padding.
use nitrate.Prelude.{
  ℕ, suc, ◌+◌, ◌^◌, ◌≤◌, ◌<◌, ◌≡◌, refl, sym, ◌∙◌, some, List, [], ◌∷◌, map, get_elem?, arith,
}
use nitrate.Hir.Ty.{Ty, struct, StructField, packed}
use nitrate.Layout.{
  Layout, ok, err, panic, out_of_fuel, ◌>>=◌, LayoutCtx, checked, next_multiple_of, place_packed,
  place_padded, get_align_of, get_size_of, is_packed, find_def,
}

pub bind_ok :
    (l : Layout) (k : ℕ → Layout) (b : ℕ) → (l >>= k) ≡ ok b → (a : ℕ) × (l ≡ ok a) × (k a ≡ ok b)
bind_ok (ok a) k b e = (a, refl, e)
bind_ok (err x) k b e = absurd (ground arith)
bind_ok panic k b e = absurd (ground arith)
bind_ok out_of_fuel k b e = absurd (ground arith)

pub checked_ok : (n m : ℕ) → checked n ≡ ok m → (m ≡ n) × (n < 2 ^ 64)
unfolding checked
checked_ok n m e = ground arith

pub checked_below : (n : ℕ) → n < 2 ^ 64 → checked n ≡ ok n
unfolding checked
checked_below n h = ground arith

pub next_multiple_of_ok : (n a m : ℕ) → next_multiple_of n a ≡ ok m → n ≤ m
unfolding next_multiple_of checked
next_multiple_of_ok n a m e = ground arith

place_padded-cons :
    (g h : Ty → Layout) (p m : ℕ) (t : Ty) (ts : List Ty)
    → place_padded g h p (t ∷ ts) ≡ ok m
    → (n : ℕ) × (end : ℕ) × (g t ≡ ok n)
      × (p + n ≤ end)
      × (end < 2 ^ 64)
      × (place_padded g h end ts ≡ ok m)
unfolding place_padded
place_padded-cons g h p m t ts e =
    let (n, size, e1) = bind_ok (g t) _ m e in
    let (a, align, e2) = bind_ok (h t) _ m e1 in
    let (start, next, e3) = bind_ok (next_multiple_of p a) _ m e2 in
    let (end, last, e4) = bind_ok (checked (start + n)) _ m e3 in
    let (same, fits) = checked_ok (start + n) end last in
    (n, end, size, omega (arith, same, next_multiple_of_ok p a start next), omega (arith, same), e4)

place_packed-cons :
    (g : Ty → Layout) (o n : ℕ) (t : Ty) (ts : List Ty)
    → g t ≡ ok n
    → o + n < 2 ^ 64
    → place_packed g o (t ∷ ts) ≡ place_packed g (o + n) ts
unfolding place_packed
place_packed-cons g o n t ts e h = rw (e, checked_below (o + n) h) refl

place_packed_below :
    (g h : Ty → Layout) (o p m : ℕ) (ts : List Ty)
    → o ≤ p
    → place_padded g h p ts ≡ ok m
    → (k : ℕ) × (place_packed g o ts ≡ ok k) × (k ≤ m)
unfolding place_packed place_padded
place_packed_below g h o p m [] l e = (o, refl, ground arith)
place_packed_below g h o p m (t ∷ ts) l e =
    let (n, end, size, after, fits, rest) = place_padded-cons g h p m t ts e in
    let (k, e', low) = place_packed_below g h (o + n) end m ts (omega arith) rest in
    (k, place_packed-cons g o n t ts size (omega arith) ∙ e', low)

find_def-some {ℓ} :
    {A : Type ℓ} (ds : List A) (i : ℕ) (k : A → Layout) (d : A)
    → get_elem? ds i ≡ some d
    → find_def ds i k ≡ k d
find_def-some ds i k d e = rw (e, find_def) refl

-- A struct of a size has one when it is packed, and it is no larger.
pub packed_size-le :
    (f i j m : ℕ) (ctx : LayoutCtx) (fields : List StructField)
    → get_elem? ctx.structs i ≡ some (record { attributes = []; fields = fields })
    → get_elem? ctx.structs j ≡ some (record { attributes = packed ∷ []; fields = fields })
    → get_size_of (suc f) ctx (struct i) ≡ ok m
    → (k : ℕ) × (get_size_of (suc f) ctx (struct j) ≡ ok k) × (k ≤ m)
unfolding get_size_of is_packed
packed_size-le f i j m ctx fields p q e =
    let types = map (λ f. f.ty) fields in
    let (k, e', low) =
      place_packed_below (get_size_of f ctx) (get_align_of f ctx) 0 0 m types (omega arith)
        (sym (find_def-some ctx.structs i _ _ p) ∙ e) in
    (k, find_def-some ctx.structs j _ _ q ∙ e', low)
