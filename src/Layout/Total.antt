-- ===== src/Layout/Total.antt =====
-- Fuel above the rank of a type is enough for its size, its alignment and its stride.
use nitrate.Prelude.{
  ℕ, zero, suc, ◌+◌, ◌-◌, ◌*◌, ◌%◌, ◌≤◌, ◌<◌, ◌≡◌, ◌≢◌, refl, subst, inl, inr, Bool, true, false,
  some, List, [], ◌∷◌, leb, ◌==◌, if◌then◌else◌, get_elem?, max, length, Option-cases, arith,
}
use nitrate.Hir.Ty.{
  Ty, Tys, array, tuple, struct, enum, type_alias, refine, unresolved_array, unresolved_refine,
}
use nitrate.Layout.{
  Layout, ok, err, panic, out_of_fuel, ◌>>=◌, LayoutCtx, elements, is_packed, field_types,
  variant_types, find_def, discrim_align, discrim_size, max_over, place_padded, place_packed,
  checked, next_multiple_of, stride_of, get_align_of, get_size_of, get_stride_of,
}
use nitrate.Layout.Ranks.{
  Ranks, rank, rank_all, ranked_by, is_ranked, struct-ranked_by, enum-ranked_by, alias-ranked_by,
}

abbrev Terminates : Layout → Type 0
Terminates out_of_fuel = ⊥
Terminates _ = Unit

bind-Terminates :
    (l : Layout) (k : ℕ → Layout)
    → Terminates l
    → ((a : ℕ) → Terminates (k a))
    → Terminates (l >>= k)
bind-Terminates (ok a) k p h = h a
bind-Terminates (err e) k p h = tt
bind-Terminates panic k p h = tt
bind-Terminates out_of_fuel k p h = p

if-Terminates :
    (b : Bool) (x y : Layout) → Terminates x → Terminates y → Terminates (if b then x else y)
if-Terminates true x y p q = p
if-Terminates false x y p q = q

find_def-Terminates {ℓ} :
    {A : Type ℓ} (ds : List A) (i : ℕ) (k : A → Layout)
    → ((d : A) → get_elem? ds i ≡ some d → Terminates (k d))
    → Terminates (find_def ds i k)
find_def-Terminates ds i k h = elim (Option-cases (get_elem? ds i)) [
  | inl e ↦ rw (e, find_def) tt
  | inr (d, e) ↦ rw (e, find_def) (h d e)
]

checked-Terminates : (n : ℕ) → Terminates (checked n)
unfolding checked
checked-Terminates n = if-Terminates _ panic (ok n) tt tt

next_multiple_of-Terminates : (n a : ℕ) → Terminates (next_multiple_of n a)
unfolding next_multiple_of
next_multiple_of-Terminates n a =
    let next = n + (a - n % a) in
    if-Terminates (a == 0) panic _ tt
      (if-Terminates (n % a == 0) (ok n) (checked next) tt (checked-Terminates next))

le→leb : (a b : ℕ) → a ≤ b → leb a b ≡ true
le→leb a b h = ground arith

module _ (r : Ranks) where
  -- The types of a list terminate below a bound.
  abbrev Below : (Ty → Layout) → ℕ → Type 0
  Below g f = (t : Ty) → rank r t < f → Terminates (g t)

  elements-ranked_by : (ts : Tys) (n : ℕ) → rank_all r ts ≤ n → ranked_by r n (elements ts) ≡ true
  unfolding rank
  elements-ranked_by Tys.[] n h = refl
  elements-ranked_by (Tys.◌∷◌ t ts) n h =
      rw (le→leb (rank r t) n (omega arith), elements-ranked_by ts n (omega arith)) refl

  max_over-Terminates :
      (g : Ty → Layout) (f n m : ℕ) (ts : List Ty)
      → Below g f
      → ranked_by r n ts ≡ true
      → n < f
      → Terminates (max_over g m ts)
  unfolding max_over
  max_over-Terminates g f n m [] b h l = tt
  max_over-Terminates g f n m (t ∷ ts) b h l =
      bind-Terminates (g t) _ (b t (ground arith))
        λ a. max_over-Terminates g f n (max m a) ts b (ground arith) l

  place_packed-Terminates :
      (g : Ty → Layout) (f n o : ℕ) (ts : List Ty)
      → Below g f
      → ranked_by r n ts ≡ true
      → n < f
      → Terminates (place_packed g o ts)
  unfolding place_packed
  place_packed-Terminates g f n o [] b h l = tt
  place_packed-Terminates g f n o (t ∷ ts) b h l = bind-Terminates (g t) _ (b t (ground arith)) λ a.
      bind-Terminates (checked (o + a)) _ (checked-Terminates (o + a))
        λ end. place_packed-Terminates g f n end ts b (ground arith) l

  place_padded-Terminates :
      (g k : Ty → Layout) (f n o : ℕ) (ts : List Ty)
      → Below g f
      → Below k f
      → ranked_by r n ts ≡ true
      → n < f
      → Terminates (place_padded g k o ts)
  unfolding place_padded
  place_padded-Terminates g k f n o [] b c h l = tt
  place_padded-Terminates g k f n o (t ∷ ts) b c h l =
      bind-Terminates (g t) _ (b t (ground arith)) λ s.
        bind-Terminates (k t) _ (c t (ground arith)) λ a.
          bind-Terminates (next_multiple_of o a) _ (next_multiple_of-Terminates o a) λ start.
            bind-Terminates (checked (start + s)) _ (checked-Terminates (start + s))
              λ end. place_padded-Terminates g k f n end ts b c (ground arith) l

  module _ (ctx : LayoutCtx) (h : is_ranked r ctx ≡ true) where
    get_align_of-Terminates : (f : ℕ) → Below (get_align_of f ctx) f
    unfolding get_align_of rank
    get_align_of-Terminates zero t l = absurd (omega arith)
    get_align_of-Terminates (suc f) (array t n) l =
        if-Terminates (n == 0) (ok 1) _ tt (get_align_of-Terminates f t (omega arith))
    get_align_of-Terminates (suc f) (tuple ts) l =
        max_over-Terminates (get_align_of f ctx) f (rank_all r ts) 1 (elements ts)
          (get_align_of-Terminates f) (elements-ranked_by ts (rank_all r ts) (omega arith))
          (omega arith)
    get_align_of-Terminates (suc f) (struct i) l = find_def-Terminates ctx.structs i _ λ d e.
        if-Terminates (is_packed d) (ok 1) _ tt (
          max_over-Terminates (get_align_of f ctx) f (r.of_struct i) 1 (field_types d)
            (get_align_of-Terminates f) (struct-ranked_by r ctx h i d e) (omega arith))
    get_align_of-Terminates (suc f) (enum i) l = find_def-Terminates ctx.enums i _ λ d e.
        bind-Terminates _ _
          (max_over-Terminates (get_align_of f ctx) f (r.of_enum i) 1 (variant_types d)
            (get_align_of-Terminates f) (enum-ranked_by r ctx h i d e) (omega arith))
          λ a. tt
    get_align_of-Terminates (suc f) (type_alias i) l =
        find_def-Terminates ctx.aliases i _
          λ d e. get_align_of-Terminates f d.type_id (omega (arith, alias-ranked_by r ctx h i d e))
    get_align_of-Terminates (suc f) (refine t _ _) l = get_align_of-Terminates f t (omega arith)
    get_align_of-Terminates (suc f) (unresolved_array t _) l =
        get_align_of-Terminates f t (omega arith)
    get_align_of-Terminates (suc f) (unresolved_refine t _ _) l =
        get_align_of-Terminates f t (omega arith)
    get_align_of-Terminates (suc f) _ l = tt

    stride_of-Terminates : (n a : Layout) → Terminates n → Terminates a → Terminates (stride_of n a)
    unfolding stride_of
    stride_of-Terminates n a p q = bind-Terminates n _ p λ s.
        if-Terminates (s == 0) (ok 0) _ tt
          (bind-Terminates a _ q λ b. next_multiple_of-Terminates s b)

    get_size_of-Terminates : (f : ℕ) → Below (get_size_of f ctx) f
    unfolding get_size_of rank
    get_size_of-Terminates zero t l = absurd (omega arith)
    get_size_of-Terminates (suc f) (array t n) l =
        bind-Terminates (stride_of (get_size_of f ctx t) (get_align_of f ctx t)) _
          (stride_of-Terminates _ _ (get_size_of-Terminates f t (omega arith))
            (get_align_of-Terminates f t (omega arith)))
          λ s. checked-Terminates (s * n)
    get_size_of-Terminates (suc f) (tuple ts) l =
        place_padded-Terminates (get_size_of f ctx) (get_align_of f ctx) f (rank_all r ts) 0
          (elements ts) (get_size_of-Terminates f) (get_align_of-Terminates f)
          (elements-ranked_by ts (rank_all r ts) (omega arith)) (omega arith)
    get_size_of-Terminates (suc f) (struct i) l = find_def-Terminates ctx.structs i _ λ d e.
        if-Terminates (is_packed d) _ _
          (place_packed-Terminates (get_size_of f ctx) f (r.of_struct i) 0 (field_types d)
            (get_size_of-Terminates f) (struct-ranked_by r ctx h i d e) (omega arith))
          (place_padded-Terminates (get_size_of f ctx) (get_align_of f ctx) f (r.of_struct i) 0
            (field_types d) (get_size_of-Terminates f) (get_align_of-Terminates f)
            (struct-ranked_by r ctx h i d e) (omega arith))
    get_size_of-Terminates (suc f) (enum i) l = find_def-Terminates ctx.enums i _ λ d e.
        bind-Terminates _ _
          (max_over-Terminates (get_size_of f ctx) f (r.of_enum i) 0 (variant_types d)
            (get_size_of-Terminates f) (enum-ranked_by r ctx h i d e) (omega arith))
          λ a.
            bind-Terminates _ _ (next_multiple_of-Terminates a (discrim_align (length d.variants)))
              λ start. checked-Terminates (start + discrim_size (length d.variants))
    get_size_of-Terminates (suc f) (type_alias i) l =
        find_def-Terminates ctx.aliases i _
          λ d e. get_size_of-Terminates f d.type_id (omega (arith, alias-ranked_by r ctx h i d e))
    get_size_of-Terminates (suc f) (refine t _ _) l = get_size_of-Terminates f t (omega arith)
    get_size_of-Terminates (suc f) (unresolved_refine t _ _) l =
        get_size_of-Terminates f t (omega arith)
    get_size_of-Terminates (suc f) _ l = tt

-- Where no definition holds itself by value, the stride, and with it the size and the alignment,
-- are computed within as many calls as the rank of the type counts.
pub get_stride_of_total :
    (r : Ranks) (ctx : LayoutCtx) (f : ℕ) (t : Ty)
    → is_ranked r ctx ≡ true
    → rank r t < f
    → (get_size_of f ctx t ≢ out_of_fuel)
      × (get_align_of f ctx t ≢ out_of_fuel)
      × (get_stride_of f ctx t ≢ out_of_fuel)
unfolding get_stride_of
get_stride_of_total r ctx f t h l =
    let size = get_size_of-Terminates r ctx h f t l in
    let align = get_align_of-Terminates r ctx h f t l in
    (
      λ e. subst Terminates e size,
      λ e. subst Terminates e align,
      λ e. subst Terminates e (stride_of-Terminates r ctx h _ _ size align),
    )
