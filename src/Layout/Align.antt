-- ===== src/Layout/Align.antt =====
-- Alignments are powers of two.
use nitrate.Prelude.{
  ℕ, zero, suc, ◌≡◌, refl, subst, Bool, true, ◌||◌, List, [], ◌∷◌, ◌==◌, max, arith,
}
use nitrate.Hir.Ty.{
  Ty, array, tuple, struct, enum, type_alias, refine, unresolved_array, unresolved_refine,
}
use nitrate.Layout.Ensures.{Ensures, bind-Ensures, if-Ensures, find_def-Ensures}
use nitrate.Layout.{
  Layout, ok, LayoutCtx, ptr_bytes, elements, is_packed, field_types, variant_types, discrim_align,
  max_over, get_align_of,
}

abbrev is_align : ℕ → Bool
is_align a = a == 1 || a == 2 || a == 4 || a == 8 || a == 16

-- One of 1, 2, 4, 8 and 16.
abbrev pub IsAlign : ℕ → Type 0
IsAlign a = is_align a ≡ true

max-IsAlign : (a b : ℕ) → IsAlign a → IsAlign b → IsAlign (max a b)
max-IsAlign a b p q = ground arith

max_over-IsAlign :
    (g : Ty → Layout) (n : ℕ) (ts : List Ty)
    → IsAlign n
    → ((t : Ty) → Ensures IsAlign (g t))
    → Ensures IsAlign (max_over g n ts)
unfolding max_over
max_over-IsAlign g n [] p h = p
max_over-IsAlign g n (t ∷ ts) p h =
    bind-Ensures IsAlign IsAlign (g t) (λ m. max_over g (max n m) ts) (h t)
      λ m q. max_over-IsAlign g (max n m) ts (max-IsAlign n m p q) h

get_align_of-Ensures : (f : ℕ) (ctx : LayoutCtx) (t : Ty) → Ensures IsAlign (get_align_of f ctx t)
unfolding get_align_of ptr_bytes discrim_align
get_align_of-Ensures zero ctx t = tt
get_align_of-Ensures (suc f) ctx (array t n) =
    if-Ensures IsAlign (n == 0) (ok 1) _ refl (get_align_of-Ensures f ctx t)
get_align_of-Ensures (suc f) ctx (tuple ts) =
    max_over-IsAlign (get_align_of f ctx) 1 (elements ts) refl (get_align_of-Ensures f ctx)
get_align_of-Ensures (suc f) ctx (struct i) = find_def-Ensures IsAlign ctx.structs i _ λ d.
    if-Ensures IsAlign (is_packed d) (ok 1) _ refl
      (max_over-IsAlign (get_align_of f ctx) 1 (field_types d) refl (get_align_of-Ensures f ctx))
get_align_of-Ensures (suc f) ctx (enum i) = find_def-Ensures IsAlign ctx.enums i _ λ d.
    bind-Ensures IsAlign IsAlign (max_over (get_align_of f ctx) 1 (variant_types d)) _
      (max_over-IsAlign (get_align_of f ctx) 1 (variant_types d) refl (get_align_of-Ensures f ctx))
      λ a p. max-IsAlign a _ p (ground arith)
get_align_of-Ensures (suc f) ctx (type_alias i) =
    find_def-Ensures IsAlign ctx.aliases i _ λ d. get_align_of-Ensures f ctx d.type_id
get_align_of-Ensures (suc f) ctx (refine t _ _) = get_align_of-Ensures f ctx t
get_align_of-Ensures (suc f) ctx (unresolved_array t _) = get_align_of-Ensures f ctx t
get_align_of-Ensures (suc f) ctx (unresolved_refine t _ _) = get_align_of-Ensures f ctx t
get_align_of-Ensures (suc f) ctx _ = ground arith

-- A returned alignment is 1, 2, 4, 8 or 16. The attribute Align of a field is not read: a field that
-- asks for 64 gives no alignment above 16.
pub get_align_of-IsAlign :
    (f : ℕ) (ctx : LayoutCtx) (t : Ty) (a : ℕ) → get_align_of f ctx t ≡ ok a → IsAlign a
get_align_of-IsAlign f ctx t a e = subst (Ensures IsAlign) e (get_align_of-Ensures f ctx t)
