-- ===== src/Hir/LitOps/Arithmetic.antt =====
-- The integer arithmetic of literal_ops.rs is arithmetic modulo a power of two.
use nitrate.Prelude.{
  ℕ, ◌+◌, ◌-◌, ◌*◌, ◌/◌, ◌%◌, ◌^◌, ◌<◌, false, ◌==◌, ◌≡◌, ◌≢◌, refl, sym, ap, ◌∙◌, arith,
  if◌then◌else◌,
}
use native.Mathlib.Nat.{mod-lt, mod-eq_of_lt, mod-add-mod, add-mod_right, div-add-mod, div-le_self}
use nitrate.Hir.Lit.{IntTy, literal, width, is_signed}
use nitrate.Hir.LitOps.{
  division_by_zero, modulo_by_zero, ok, err, Floats, ints, match_pair, is_negative, magnitude,
  with_sign, wrapping_div, wrapping_rem, arithmetic, neg_lit, not_lit, add_lit, sub_lit, div_lit,
  rem_lit,
}

pub match_literal : (t : IntTy) (a b : ℕ) → match_pair (literal t a) (literal t b) ≡ ints t a b
unfolding match_pair literal
match_literal IntTy.i8 a b = refl
match_literal IntTy.i16 a b = refl
match_literal IntTy.i32 a b = refl
match_literal IntTy.i64 a b = refl
match_literal IntTy.i128 a b = refl
match_literal IntTy.u8 a b = refl
match_literal IntTy.u16 a b = refl
match_literal IntTy.u32 a b = refl
match_literal IntTy.u64 a b = refl
match_literal IntTy.u128 a b = refl
match_literal (IntTy.usize bits) a b = refl

module _ (fl : Floats) (t : IntTy) (a b : ℕ) where
  add_literal : add_lit fl (literal t a) (literal t b) ≡ ok (literal t ((a + b) % 2 ^ width t))
  unfolding add_lit arithmetic
  add_literal = rw (match_literal t a b, add_lit, arithmetic) refl

  sub_literal :
      sub_lit fl (literal t a) (literal t b) ≡ ok (literal t ((a + 2 ^ width t - b) % 2 ^ width t))
  unfolding sub_lit arithmetic
  sub_literal = rw (match_literal t a b, sub_lit, arithmetic) refl

  neg_literal : neg_lit fl (literal t a) ≡ ok (literal t ((2 ^ width t - a) % 2 ^ width t))
  unfolding neg_lit
  neg_literal = rw (match_literal t a a, neg_lit) refl

  not_literal : not_lit fl (literal t a) ≡ ok (literal t (2 ^ width t - 1 - a))
  unfolding not_lit
  not_literal = rw (match_literal t a a, not_lit) refl

pub add-sub_mod : (m a b : ℕ) → a < m → b < m → ((a + b) % m + m - b) % m ≡ a
add-sub_mod m a b ha hb =
    let apart : (a + b) % m + m - b ≡ (a + b) % m + (m - b) = omega arith in
    let whole : a + b + (m - b) ≡ a + m = omega arith in
    ap (λ n. n % m) apart
    ∙ mod-add-mod (a + b) m (m - b)
    ∙ ap (λ n. n % m) whole
    ∙ add-mod_right a m
    ∙ mod-eq_of_lt ha

-- On every integer type, a sum fits in the bits that hold its values, and taking an operand away
-- from it gives back the other one. The values of usize are held in 64 bits, also where the literal
-- says that it has 32: a sum can be larger than 32 bits there.
pub add_lit-sub_lit :
    (fl : Floats) (t : IntTy) (a b : ℕ)
    → a < 2 ^ width t
    → b < 2 ^ width t
    → (c : ℕ) × (add_lit fl (literal t a) (literal t b) ≡ ok (literal t c))
      × (c < 2 ^ width t)
      × (sub_lit fl (literal t c) (literal t b) ≡ ok (literal t a))
add_lit-sub_lit fl t a b ha hb =
    let m = 2 ^ width t in
    let positive : 0 < m = omega (arith, ha) in
    let c = (a + b) % m in
    (
      c,
      add_literal fl t a b,
      mod-lt (a + b) positive,
      sub_literal fl t c b ∙ ap (λ n. ok (literal t n)) (add-sub_mod m a b ha hb),
    )

-- Negation is the complement plus one, on every integer type.
pub neg_lit-not_lit :
    (fl : Floats) (t : IntTy) (a : ℕ)
    → a < 2 ^ width t
    → (c : ℕ) × (not_lit fl (literal t a) ≡ ok (literal t c))
      × (add_lit fl (literal t c) (literal t 1) ≡ neg_lit fl (literal t a))
neg_lit-not_lit fl t a ha =
    let m = 2 ^ width t in
    let c = m - 1 - a in
    let next : c + 1 ≡ m - a = omega arith in
    (
      c,
      not_literal fl t a 0,
      add_literal fl t c 1 ∙ ap (λ n. ok (literal t (n % m))) next ∙ sym (neg_literal fl t a 0),
    )

div_literal_lem :
    (fl : Floats) (t : IntTy) (a b : ℕ)
    → div_lit fl (literal t a) (literal t b)
      ≡ (if b == 0 then err division_by_zero else ok (literal t (wrapping_div t a b)))
unfolding div_lit arithmetic
div_literal_lem fl t a b = rw (match_literal t a b, div_lit, arithmetic) refl

rem_literal_lem :
    (fl : Floats) (t : IntTy) (a b : ℕ)
    → rem_lit fl (literal t a) (literal t b)
      ≡ (if b == 0 then err modulo_by_zero else ok (literal t (wrapping_rem t a b)))
unfolding rem_lit arithmetic
rem_literal_lem fl t a b = rw (match_literal t a b, rem_lit, arithmetic) refl

-- On every unsigned type, a division by zero and a remainder by zero are errors of their own, and
-- otherwise both succeed, the quotient times the divisor plus the remainder is the dividend, and
-- the remainder is below the divisor.
pub div_lit-rem_lit :
    (fl : Floats) (t : IntTy) (a b : ℕ)
    → is_signed t ≡ false
    → a < 2 ^ width t
    → b < 2 ^ width t
    → (b ≡ 0
        → (div_lit fl (literal t a) (literal t b) ≡ err division_by_zero)
          × (rem_lit fl (literal t a) (literal t b) ≡ err modulo_by_zero))
      × (b ≢ 0
          → (q : ℕ) × (r : ℕ) × (div_lit fl (literal t a) (literal t b) ≡ ok (literal t q))
            × (rem_lit fl (literal t a) (literal t b) ≡ ok (literal t r))
            × (b * q + r ≡ a)
            × (r < b))
unfolding wrapping_div wrapping_rem with_sign magnitude is_negative
div_lit-rem_lit fl t a b unsigned ha hb = (
  λ zero_. (div_literal_lem fl t a b ∙ rw zero_ refl, rem_literal_lem fl t a b ∙ rw zero_ refl),
  λ nonzero.
      let differs : (b == 0) ≡ false = ground (arith, nonzero) in
      let q_small : a / b < 2 ^ width t = omega (arith, div-le_self a b, ha) in
      let r_small : a % b < b = mod-lt a (ground (arith, nonzero)) in
      (
        a / b,
        a % b,
        div_literal_lem fl t a b
            ∙ rw (differs, unsigned) (ap (λ n. ok (literal t n)) (mod-eq_of_lt q_small)),
        rem_literal_lem fl t a b
            ∙ rw (differs, unsigned) (ap (λ n. ok (literal t n)) (mod-eq_of_lt (omega arith))),
        div-add-mod a b,
        r_small,
      ),
)
