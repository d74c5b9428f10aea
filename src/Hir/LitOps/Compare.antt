-- ===== src/Hir/LitOps/Compare.antt =====
-- The comparisons and the logical operators of literal_ops.rs.
use nitrate.Prelude.{
  ℕ, ◌+◌, ◌-◌, ◌%◌, ◌^◌, ◌<◌, Bool, true, false, not, ◌&&◌, ◌||◌, ltb, leb, ◌==◌, ==_iff, ◌≡◌, ◌≢◌,
  inl, inr, refl, sym, ap, ◌∙◌, arith, Bool-cases, if◌then◌else◌,
}
use nitrate.Hir.Lit.{Lit, IntTy, literal, width, is_signed}
use nitrate.Hir.LitOps.{
  type_error, Result, ok, err, FloatOps, Floats, ints, f32s, f64s, bools, units, others, match_pair,
}
use nitrate.Hir.LitOps.Arithmetic.{match_literal, add-sub_mod}

-- Two's complement, shifted so that the order of the values is that of the keys.
unfoldable pub order_key : IntTy → ℕ → ℕ
order_key t a = if is_signed t then (a + 2 ^ (width t - 1)) % 2 ^ width t else a

module _ (fl : Floats) where
  unfoldable pub comparison :
      Bool
      → (Bool → Bool → Bool)
      → (IntTy → ℕ → ℕ → Bool)
      → (FloatOps → ℕ → ℕ → Bool)
      → Lit
      → Lit
      → Result Bool
  comparison on_units on_bools on_ints on_floats x y = elim (match_pair x y) [
    | ints t a b ↦ ok (on_ints t a b)
    | f32s a b ↦ ok (on_floats fl.single a b)
    | f64s a b ↦ ok (on_floats fl.double a b)
    | bools a b ↦ ok (on_bools a b)
    | units ↦ ok on_units
    | others ↦ err type_error
  ]

  unfoldable pub lt_lit : Lit → Lit → Result Bool
  unfolding comparison
  lt_lit x y =
      comparison false (λ a b. not a && b) (λ t a b. ltb (order_key t a) (order_key t b))
        (λ o. o.flt) x y

  unfoldable pub gt_lit : Lit → Lit → Result Bool
  unfolding comparison
  gt_lit x y =
      comparison false (λ a b. a && not b) (λ t a b. ltb (order_key t b) (order_key t a))
        (λ o. o.fgt) x y

  unfoldable pub le_lit : Lit → Lit → Result Bool
  unfolding comparison
  le_lit x y =
      comparison true (λ a b. not a || b) (λ t a b. leb (order_key t a) (order_key t b))
        (λ o. o.fle) x y

  unfoldable pub ge_lit : Lit → Lit → Result Bool
  unfolding comparison
  ge_lit x y =
      comparison true (λ a b. a || not b) (λ t a b. leb (order_key t b) (order_key t a))
        (λ o. o.fge) x y

  unfoldable pub eq_lit : Lit → Lit → Result Bool
  unfolding comparison
  eq_lit x y =
      comparison true (λ a b. if a then b else not b) (λ t a b. a == b)
        (λ o a b. o.feq a b || (o.is_nan a && o.is_nan b)) x y

  unfoldable pub ne_lit : Lit → Lit → Result Bool
  unfolding comparison
  ne_lit x y =
      comparison false (λ a b. if a then not b else b) (λ t a b. not (a == b))
        (λ o a b. o.fne a b && not (o.is_nan a && o.is_nan b)) x y

unfoldable pub logical : (Bool → Bool → Bool) → Lit → Lit → Result Bool
logical on_bools x y = elim (match_pair x y) [ bools a b ↦ ok (on_bools a b) | _ ↦ err type_error ]

unfoldable pub logical_and : Lit → Lit → Result Bool
unfolding logical
logical_and x y = logical (λ a b. a && b) x y

unfoldable pub logical_or : Lit → Lit → Result Bool
unfolding logical
logical_or x y = logical (λ a b. a || b) x y

unfoldable pub logical_xor : Lit → Lit → Result Bool
unfolding logical
logical_xor x y = logical (λ a b. if a then not b else b) x y

half_lt : (t : IntTy) → 2 ^ (width t - 1) < 2 ^ width t
unfolding width
half_lt IntTy.i8 = omega arith
half_lt IntTy.i16 = omega arith
half_lt IntTy.i32 = omega arith
half_lt IntTy.i64 = omega arith
half_lt IntTy.i128 = omega arith
half_lt IntTy.u8 = omega arith
half_lt IntTy.u16 = omega arith
half_lt IntTy.u32 = omega arith
half_lt IntTy.u64 = omega arith
half_lt IntTy.u128 = omega arith
half_lt (IntTy.usize bits) = omega arith

order_key-injective :
    (t : IntTy) (a b : ℕ)
    → a < 2 ^ width t
    → b < 2 ^ width t
    → order_key t a ≡ order_key t b
    → a ≡ b
unfolding order_key
order_key-injective t a b ha hb e = elim (Bool-cases (is_signed t)) [
  | inl signed ↦
      let m = 2 ^ width t in
      let h = 2 ^ (width t - 1) in
      let e' : (a + h) % m ≡ (b + h) % m = rw (signed, order_key) at e in
      sym (add-sub_mod m a h ha (half_lt t))
      ∙ ap (λ n. (n + m - h) % m) e'
      ∙ add-sub_mod m b h hb (half_lt t)
  | inr unsigned ↦ rw (unsigned, order_key) at e
]

trichotomy :
    (x y a b : ℕ)
    → (a ≡ b → x ≡ y)
    → (x ≡ y → a ≡ b)
    → (leb x y ≡ (ltb x y || a == b))
      × (leb y x ≡ (ltb y x || a == b))
      × ((ltb x y || a == b || ltb y x) ≡ true)
      × ((ltb x y && a == b || ltb x y && ltb y x || a == b && ltb y x) ≡ false)
trichotomy x y a b same inj = elim (Bool-cases (a == b)) [
  | inl equal ↦ let e = same ((==_iff a b).0 equal) in ground (arith, equal, e)
  | inr differ ↦ let n : x ≢ y = λ e. ground (arith, inj e, differ) in ground (arith, differ, n)
]

-- The comparisons of two integers of one type agree: exactly one of less, equal and greater holds,
-- and the others are made of these.
comparisons_agree :
    (fl : Floats) (t : IntTy) (a b : ℕ)
    → a < 2 ^ width t
    → b < 2 ^ width t
    → (l : Bool) × (e : Bool) × (g : Bool) × (lt_lit fl (literal t a) (literal t b) ≡ ok l)
      × (eq_lit fl (literal t a) (literal t b) ≡ ok e)
      × (gt_lit fl (literal t a) (literal t b) ≡ ok g)
      × (le_lit fl (literal t a) (literal t b) ≡ ok (l || e))
      × (ge_lit fl (literal t a) (literal t b) ≡ ok (g || e))
      × (ne_lit fl (literal t a) (literal t b) ≡ ok (not e))
      × ((l || e || g) ≡ true)
      × ((l && e || l && g || e && g) ≡ false)
unfolding lt_lit eq_lit gt_lit le_lit ge_lit ne_lit comparison
comparisons_agree fl t a b ha hb =
    let x = order_key t a in
    let y = order_key t b in
    let facts = trichotomy x y a b (λ e. ap (order_key t) e) (order_key-injective t a b ha hb) in
    (
      ltb x y,
      a == b,
      ltb y x,
      rw (match_literal t a b, lt_lit, comparison) refl,
      rw (match_literal t a b, eq_lit, comparison) refl,
      rw (match_literal t a b, gt_lit, comparison) refl,
      rw (match_literal t a b, le_lit, comparison) (ap ok facts.0),
      rw (match_literal t a b, ge_lit, comparison) (ap ok facts.1),
      rw (match_literal t a b, ne_lit, comparison) refl,
      facts.2,
      facts.3,
    )
