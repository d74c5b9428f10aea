-- ===== src/Hir/Tests.antt =====
-- The theorems on literals at concrete values, and runs of the operators.
use nitrate.Prelude.{ℕ, ◌+◌, ◌*◌, ◌^◌, ◌<◌, true, false, ◌≡◌, ◌≢◌, refl, arith}
use nitrate.Hir.Lit.{Lit, IntTy, literal, width, is_signed}
use nitrate.Hir.LitOps.{
  ok, err, division_by_zero, modulo_by_zero, FloatOps, Floats, arithmetic, match_pair, is_negative,
  magnitude, with_sign, wrapping_div, wrapping_rem, shift_right, shift_by, add_lit, sub_lit,
  div_lit, rem_lit, shr_lit,
}
use nitrate.Hir.LitOps.Arithmetic.{add_lit-sub_lit, div_lit-rem_lit}

abbrev hundred : ℕ
hundred = 100

-- Floats whose operations give back an operand.
abbrev ops : FloatOps
ops = record {
  fneg = λ a. a;
  fadd = λ a b. a;
  fsub = λ a b. a;
  fmul = λ a b. a;
  fdiv = λ a b. a;
  frem = λ a b. a;
  flt = λ a b. false;
  fgt = λ a b. false;
  fle = λ a b. true;
  fge = λ a b. true;
  feq = λ a b. true;
  fne = λ a b. false;
  is_nan = λ a. false;
}

abbrev floats : Floats
floats = record { single = ops; double = ops }

-- -7 / 2, -7 % 2 and -7 >> 1
signed_division : div_lit floats (Lit.i8 249) (Lit.i8 2) ≡ ok (Lit.i8 253)
unfolding div_lit arithmetic match_pair wrapping_div with_sign is_negative magnitude is_signed width
    literal
signed_division = refl

signed_remainder : rem_lit floats (Lit.i8 249) (Lit.i8 2) ≡ ok (Lit.i8 255)
unfolding rem_lit arithmetic match_pair wrapping_rem with_sign is_negative magnitude is_signed width
    literal
signed_remainder = refl

signed_shift : shr_lit (Lit.i8 249) (Lit.u32 1) ≡ ok (Lit.i8 252)
unfolding shr_lit shift_by match_pair shift_right is_negative is_signed width literal
signed_shift = refl

below_256 : 200 < 2 ^ width IntTy.u8
unfolding width
below_256 = omega arith

small : 100 < 2 ^ width IntTy.u8
unfolding width
small = omega arith

unsigned : is_signed IntTy.u8 ≡ false
unfolding is_signed
unsigned = refl

add_lit-sub_lit_example :
    (c : ℕ) × (add_lit floats (literal IntTy.u8 200) (literal IntTy.u8 100)
      ≡ ok (literal IntTy.u8 c))
    × (c < 2 ^ width IntTy.u8)
    × (sub_lit floats (literal IntTy.u8 c) (literal IntTy.u8 100) ≡ ok (literal IntTy.u8 200))
add_lit-sub_lit_example = add_lit-sub_lit floats IntTy.u8 200 100 below_256 small

div_lit-rem_lit_example :
    (hundred ≡ 0
      → (div_lit floats (literal IntTy.u8 200) (literal IntTy.u8 100) ≡ err division_by_zero)
        × (rem_lit floats (literal IntTy.u8 200) (literal IntTy.u8 100) ≡ err modulo_by_zero))
    × (hundred ≢ 0
        → (q : ℕ) × (r : ℕ) × (div_lit floats (literal IntTy.u8 200) (literal IntTy.u8 100)
            ≡ ok (literal IntTy.u8 q))
          × (rem_lit floats (literal IntTy.u8 200) (literal IntTy.u8 100) ≡ ok (literal IntTy.u8 r))
          × (100 * q + r ≡ 200)
          × (r < 100))
div_lit-rem_lit_example = div_lit-rem_lit floats IntTy.u8 200 100 unsigned below_256 small
