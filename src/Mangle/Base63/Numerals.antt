-- ===== src/Mangle/Base63/Numerals.antt =====
-- Numbers in a base, the lowest digit first, and their one form without leading zeros.
use native.Mathlib.Nat.{
  div-add-mod', div-lt_self, div-eq_of_lt, mod-lt, mod-eq_of_lt, mul-pos, add-mul-mod_self_right,
  add-mul-div_right,
}
use nitrate.Prelude.{
  ℕ, zero, suc, ◌+◌, ◌*◌, ◌/◌, ◌%◌, ◌≤◌, ◌<◌, ◌≡◌, refl, sym, ap, subst, ◌∙◌, inl, inr, true, List,
  [], ◌∷◌, ◌++◌, ltb, ◌==◌, all, and_true, Bool-cases, arith,
}
use nitrate.Mangle.Base63.{push_carry, mul_add}

unfoldable pub value : ℕ → List ℕ → ℕ
value b [] = 0
value b (d ∷ ds) = d + value b ds * b

-- Digits below the base, the last of them not zero.
unfoldable pub IsNumeral : ℕ → List ℕ → Type 0
unfolding value
IsNumeral b [] = Unit
IsNumeral b (d ∷ ds) = (d < b) × (0 < d + value b ds * b) × IsNumeral b ds

smaller : (b carry fuel : ℕ) → 1 < b → 0 < carry → carry ≤ suc fuel → carry / b ≤ fuel
smaller b carry fuel h p l = let less : carry / b < carry = div-lt_self p h in omega (arith, less)

pub value-push_carry :
    (fuel b carry : ℕ) → 1 < b → carry ≤ fuel → value b (push_carry fuel b carry) ≡ carry
unfolding value push_carry
value-push_carry zero b carry h l = omega arith
value-push_carry (suc fuel) b carry h l = elim (Bool-cases (carry == 0)) [
  | inl none ↦ rw none (ground arith)
  | inr some ↦
      let rest = value-push_carry fuel b (carry / b) h (smaller b carry fuel h (ground arith) l) in
      rw some (rw rest (omega (arith, div-add-mod' carry b)))
]

pub push_carry-IsNumeral :
    (fuel b carry : ℕ) → 1 < b → carry ≤ fuel → IsNumeral b (push_carry fuel b carry)
unfolding IsNumeral push_carry
push_carry-IsNumeral zero b carry h l = tt
push_carry-IsNumeral (suc fuel) b carry h l = elim (Bool-cases (carry == 0)) [
  | inl none ↦ rw none tt
  | inr some ↦
      let low = smaller b carry fuel h (ground arith) l in
      rw some (
        mod-lt carry (omega arith),
        rw (value-push_carry fuel b (carry / b) h low) (ground (arith, div-add-mod' carry b)),
        push_carry-IsNumeral fuel b (carry / b) h low,
      )
]

pub value-mul_add :
    (m b carry : ℕ) (ds : List ℕ) → 1 < b → value b (mul_add m b carry ds) ≡ value b ds * m + carry
unfolding value mul_add
value-mul_add m b carry [] h = omega (arith, value-push_carry carry b carry h (omega arith))
value-mul_add m b carry (d ∷ ds) h =
    let whole = div-add-mod' (d * m + carry) b in
    rw (value-mul_add m b ((d * m + carry) / b) ds h) (omega (arith, whole))

pub mul_add-IsNumeral :
    (m b carry : ℕ) (ds : List ℕ)
    → 1 < b
    → 0 < m
    → IsNumeral b ds
    → IsNumeral b (mul_add m b carry ds)
unfolding IsNumeral mul_add
mul_add-IsNumeral m b carry [] h p n = push_carry-IsNumeral carry b carry h (omega arith)
mul_add-IsNumeral m b carry (d ∷ ds) h p n =
    let v = value-mul_add m b carry (d ∷ ds) h in
    (
      mod-lt (d * m + carry) (omega arith),
      subst (◌<◌ 0) (sym v) (omega (arith, mul-pos n.1 p)),
      mul_add-IsNumeral m b ((d * m + carry) / b) ds h p n.2,
    )

low_digit : (b d n : ℕ) → d < b → (d + n * b) % b ≡ d
low_digit b d n h = add-mul-mod_self_right d n b ∙ mod-eq_of_lt h

high_digits : (b d n : ℕ) → d < b → (d + n * b) / b ≡ n
high_digits b d n h =
    add-mul-div_right d n (omega arith) ∙ ap (λ q. q + n) (div-eq_of_lt h) ∙ omega arith

-- A numeral is the one of its value.
pub IsNumeral-unique :
    (b : ℕ) (xs ys : List ℕ)
    → 1 < b
    → IsNumeral b xs
    → IsNumeral b ys
    → value b xs ≡ value b ys
    → xs ≡ ys
unfolding IsNumeral value
IsNumeral-unique b [] [] h p q e = refl
IsNumeral-unique b [] (y ∷ ys) h p q e = absurd (omega (arith, q.1))
IsNumeral-unique b (x ∷ xs) [] h p q e = absurd (omega (arith, p.1))
IsNumeral-unique b (x ∷ xs) (y ∷ ys) h p q e =
    let heads =
      sym (low_digit b x (value b xs) p.0) ∙ ap (λ n. n % b) e ∙ low_digit b y (value b ys) q.0 in
    let tails =
      sym (high_digits b x (value b xs) p.0)
      ∙ ap (λ n. n / b) e
      ∙ high_digits b y (value b ys) q.0 in
    let same = IsNumeral-unique b xs ys h p.2 q.2 tails in cc (heads, same)

pub IsNumeral-all : (b : ℕ) (ds : List ℕ) → IsNumeral b ds → all (λ d. ltb d b) ds ≡ true
unfolding IsNumeral
IsNumeral-all b [] n = refl
IsNumeral-all b (d ∷ ds) n = ground (arith, n.0, IsNumeral-all b ds n.2)

value-append_pos : (b c : ℕ) (ds : List ℕ) → 1 < b → 0 < c → 0 < value b (ds ++ c ∷ [])
unfolding value
value-append_pos b c [] h p = omega arith
value-append_pos b c (d ∷ ds) h p =
    let rest : 0 < b = omega arith in omega (arith, mul-pos (value-append_pos b c ds h p) rest)

-- A digit above zero on top makes a numeral.
pub append-IsNumeral :
    (b c : ℕ) (ds : List ℕ)
    → 1 < b
    → 0 < c
    → c < b
    → all (λ d. ltb d b) ds ≡ true
    → IsNumeral b (ds ++ c ∷ [])
unfolding IsNumeral value
append-IsNumeral b c [] h p l a = (l, omega arith, tt)
append-IsNumeral b c (d ∷ ds) h p l a =
    let (low, rest) = and_true (ltb d b) (all (λ d. ltb d b) ds) a in
    (ground arith, value-append_pos b c (d ∷ ds) h p, append-IsNumeral b c ds h p l rest)
