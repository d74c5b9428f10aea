-- ===== src/Layout/Ranks.antt =====
-- Types whose definitions do not hold themselves by value: every definition has a rank above the
-- types that it holds.
use nitrate.Prelude.{
  ℕ, zero, suc, ◌+◌, ◌≤◌, ◌≡◌, Bool, true, ◌&&◌, some, List, [], ◌∷◌, leb, get_elem?, all, max,
  and_true, arith,
}
use nitrate.Hir.Ty.{
  Ty, Tys, array, tuple, struct, enum, type_alias, refine, unresolved_array, unresolved_refine,
  StructDef, EnumDef, TypeAliasDef,
}
use nitrate.Layout.{LayoutCtx, field_types, variant_types}

-- The ranks of the definitions, by their positions.
pub record Ranks : Type 0 where
  pub of_struct : ℕ → ℕ
  pub of_enum : ℕ → ℕ
  pub of_alias : ℕ → ℕ

-- How many calls deep the layout of a type goes.
unfoldable mutual
  pub rank : Ranks → Ty → ℕ
  rank r (array t _) = suc (rank r t)
  rank r (tuple ts) = suc (rank_all r ts)
  rank r (struct i) = suc (r.of_struct i)
  rank r (enum i) = suc (r.of_enum i)
  rank r (type_alias i) = suc (r.of_alias i)
  rank r (refine t _ _) = suc (rank r t)
  rank r (unresolved_array t _) = suc (rank r t)
  rank r (unresolved_refine t _ _) = suc (rank r t)
  rank r _ = 0

  pub rank_all : Ranks → Tys → ℕ
  rank_all r Tys.[] = 0
  rank_all r (Tys.◌∷◌ t ts) = max (rank r t) (rank_all r ts)

abbrev pub ranked_by : Ranks → ℕ → List Ty → Bool
ranked_by r n ts = all (λ t. leb (rank r t) n) ts

-- Every definition from a position on has a rank that its types keep to.
unfoldable pub ranked_from {ℓ} : {A : Type ℓ} → Ranks → (A → List Ty) → (ℕ → ℕ) → ℕ → List A → Bool
ranked_from r types of_def i [] = true
ranked_from r types of_def i (d ∷ ds) =
    ranked_by r (of_def i) (types d) && ranked_from r types of_def (suc i) ds

unfoldable pub is_ranked : Ranks → LayoutCtx → Bool
is_ranked r ctx =
    ranked_from r field_types r.of_struct 0 ctx.structs
    && ranked_from r variant_types r.of_enum 0 ctx.enums
    && ranked_from r (λ d. d.type_id ∷ []) r.of_alias 0 ctx.aliases

ranked_from-get_elem? {ℓ} :
    {A : Type ℓ} (r : Ranks) (types : A → List Ty) (of_def : ℕ → ℕ) (i j k : ℕ) (ds : List A)
    (d : A)
    → ranked_from r types of_def i ds ≡ true
    → get_elem? ds k ≡ some d
    → j ≡ i + k
    → ranked_by r (of_def j) (types d) ≡ true
unfolding ranked_from
ranked_from-get_elem? r types of_def i j k [] d h e s = absurd (ground arith)
ranked_from-get_elem? r types of_def i j zero (c ∷ ds) d h e s =
    let here =
      and_true (ranked_by r (of_def i) (types c)) (ranked_from r types of_def (suc i) ds) h in
    let q : c ≡ d = ground arith in let p : i ≡ j = omega arith in rw (p, q) at here.0
ranked_from-get_elem? r types of_def i j (suc k) (c ∷ ds) d h e s =
    let here =
      and_true (ranked_by r (of_def i) (types c)) (ranked_from r types of_def (suc i) ds) h in
    ranked_from-get_elem? r types of_def (suc i) j k ds d here.1 e (omega arith)

module _ (r : Ranks) (ctx : LayoutCtx) (h : is_ranked r ctx ≡ true) where
  pub struct-ranked_by :
      (i : ℕ) (d : StructDef)
      → get_elem? ctx.structs i ≡ some d
      → ranked_by r (r.of_struct i) (field_types d) ≡ true
  unfolding is_ranked
  struct-ranked_by i d e =
      ranked_from-get_elem? r field_types r.of_struct 0 i i ctx.structs d (ground arith) e
        (omega arith)

  pub enum-ranked_by :
      (i : ℕ) (d : EnumDef)
      → get_elem? ctx.enums i ≡ some d
      → ranked_by r (r.of_enum i) (variant_types d) ≡ true
  unfolding is_ranked
  enum-ranked_by i d e =
      ranked_from-get_elem? r variant_types r.of_enum 0 i i ctx.enums d (ground arith) e
        (omega arith)

  pub alias-ranked_by :
      (i : ℕ) (d : TypeAliasDef)
      → get_elem? ctx.aliases i ≡ some d
      → rank r d.type_id ≤ r.of_alias i
  unfolding is_ranked
  alias-ranked_by i d e =
      let held =
        ranked_from-get_elem? r (λ d. d.type_id ∷ []) r.of_alias 0 i i ctx.aliases d (ground arith)
          e (omega arith) in
      ground arith
