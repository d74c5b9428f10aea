-- ===== src/Hir/LitOps.antt =====
-- literal_ops.rs: the operators on literals. What the `wrapping_` and `checked_` methods of the
-- integers do is written out on their bits.
pub mod Rotate
pub mod Arithmetic
pub mod Compare
use Prim.Native.Nat.{bit_and, bit_or, bit_xor}
use nitrate.Prelude.{
  ℕ, zero, suc, ◌+◌, ◌-◌, ◌*◌, ◌/◌, ◌%◌, ◌^◌, ◌<◌, ◌≤◌, Bool, true, false, not, ◌&&◌, ◌||◌, Option,
  none, some, ltb, leb, ◌==◌, if◌then◌else◌,
}
use nitrate.Hir.Lit.{Lit, IntTy, literal, width, is_signed, size_of, new_integer}

-- The variants of the error types of the operators.
pub data LiteralError : Type 0 where
  type_error division_by_zero modulo_by_zero shift_amount_error : LiteralError

pub data Result (A : Type 0) : Type 0 where
  ok : A → Result A
  err : LiteralError → Result A

-- The arithmetic and the comparisons of one float type, on the bits.
pub record FloatOps : Type 0 where
  pub fneg : ℕ → ℕ
  pub fadd : ℕ → ℕ → ℕ
  pub fsub : ℕ → ℕ → ℕ
  pub fmul : ℕ → ℕ → ℕ
  pub fdiv : ℕ → ℕ → ℕ
  pub frem : ℕ → ℕ → ℕ
  pub flt : ℕ → ℕ → Bool
  pub fgt : ℕ → ℕ → Bool
  pub fle : ℕ → ℕ → Bool
  pub fge : ℕ → ℕ → Bool
  pub feq : ℕ → ℕ → Bool
  pub fne : ℕ → ℕ → Bool
  pub is_nan : ℕ → Bool

pub record Floats : Type 0 where
  pub single : FloatOps
  pub double : FloatOps

-- The pairs of literals that the arms of a binary operator tell apart.
pub data Pair : Type 0 where
  ints : IntTy → ℕ → ℕ → Pair
  f32s f64s : ℕ → ℕ → Pair
  bools : Bool → Bool → Pair
  units others : Pair

unfoldable pub match_pair : Lit → Lit → Pair
match_pair (Lit.i8 a) (Lit.i8 b) = ints IntTy.i8 a b
match_pair (Lit.i16 a) (Lit.i16 b) = ints IntTy.i16 a b
match_pair (Lit.i32 a) (Lit.i32 b) = ints IntTy.i32 a b
match_pair (Lit.i64 a) (Lit.i64 b) = ints IntTy.i64 a b
match_pair (Lit.i128 a) (Lit.i128 b) = ints IntTy.i128 a b
match_pair (Lit.u8 a) (Lit.u8 b) = ints IntTy.u8 a b
match_pair (Lit.u16 a) (Lit.u16 b) = ints IntTy.u16 a b
match_pair (Lit.u32 a) (Lit.u32 b) = ints IntTy.u32 a b
match_pair (Lit.u64 a) (Lit.u64 b) = ints IntTy.u64 a b
match_pair (Lit.u128 a) (Lit.u128 b) = ints IntTy.u128 a b
match_pair (Lit.usize bits a) (Lit.usize _ b) = ints (IntTy.usize bits) a b
match_pair (Lit.f32 a) (Lit.f32 b) = f32s a b
match_pair (Lit.f64 a) (Lit.f64 b) = f64s a b
match_pair (Lit.bool a) (Lit.bool b) = bools a b
match_pair Lit.unit Lit.unit = units
match_pair _ _ = others

-- The sign and the magnitude of the bits of a type.
unfoldable pub is_negative : IntTy → ℕ → Bool
is_negative t a = is_signed t && leb (2 ^ (width t - 1)) a

unfoldable pub magnitude : IntTy → ℕ → ℕ
magnitude t a = if is_negative t a then 2 ^ width t - a else a

unfoldable pub with_sign : IntTy → Bool → ℕ → ℕ
with_sign t negative m =
    if negative then (2 ^ width t - m % 2 ^ width t) % 2 ^ width t else m % 2 ^ width t

-- Division towards zero; the remainder has the sign of the dividend.
unfoldable pub wrapping_div : IntTy → ℕ → ℕ → ℕ
wrapping_div t a b =
    let differ = if is_negative t a then not (is_negative t b) else is_negative t b in
    with_sign t differ (magnitude t a / magnitude t b)

unfoldable pub wrapping_rem : IntTy → ℕ → ℕ → ℕ
wrapping_rem t a b = with_sign t (is_negative t a) (magnitude t a % magnitude t b)

-- A shift to the right of a negative number fills with ones.
unfoldable pub shift_right : IntTy → ℕ → ℕ → ℕ
shift_right t a b =
    if is_negative t a then a / 2 ^ b + (2 ^ width t - 2 ^ width t / 2 ^ b) else a / 2 ^ b

module _ (fl : Floats) where
  unfoldable pub neg_lit : Lit → Result Lit
  neg_lit x = elim (match_pair x x) [
    | ints t a _ ↦ ok (literal t ((2 ^ width t - a) % 2 ^ width t))
    | f32s a _ ↦ ok (Lit.f32 (fl.single.fneg a))
    | f64s a _ ↦ ok (Lit.f64 (fl.double.fneg a))
    | bools _ _ ↦ err type_error
    | units ↦ err type_error
    | others ↦ err type_error
  ]

  unfoldable pub not_lit : Lit → Result Lit
  not_lit x = elim (match_pair x x) [
    | ints t a _ ↦ ok (literal t (2 ^ width t - 1 - a))
    | bools b _ ↦ ok (Lit.bool (not b))
    | _ ↦ err type_error
  ]

  unfoldable pub arithmetic :
      (IntTy → ℕ → ℕ → Result Lit) → (FloatOps → ℕ → ℕ → ℕ) → Lit → Lit → Result Lit
  arithmetic on_ints on_floats x y = elim (match_pair x y) [
    | ints t a b ↦ on_ints t a b
    | f32s a b ↦ ok (Lit.f32 (on_floats fl.single a b))
    | f64s a b ↦ ok (Lit.f64 (on_floats fl.double a b))
    | bools _ _ ↦ err type_error
    | units ↦ err type_error
    | others ↦ err type_error
  ]

  unfoldable pub add_lit : Lit → Lit → Result Lit
  unfolding arithmetic
  add_lit x y = arithmetic (λ t a b. ok (literal t ((a + b) % 2 ^ width t))) (λ o. o.fadd) x y

  unfoldable pub sub_lit : Lit → Lit → Result Lit
  unfolding arithmetic
  sub_lit x y =
      arithmetic (λ t a b. ok (literal t ((a + 2 ^ width t - b) % 2 ^ width t))) (λ o. o.fsub) x y

  unfoldable pub mul_lit : Lit → Lit → Result Lit
  unfolding arithmetic
  mul_lit x y = arithmetic (λ t a b. ok (literal t (a * b % 2 ^ width t))) (λ o. o.fmul) x y

  unfoldable pub div_lit : Lit → Lit → Result Lit
  unfolding arithmetic
  div_lit x y =
      arithmetic
        (λ t a b. if b == 0 then err division_by_zero else ok (literal t (wrapping_div t a b)))
        (λ o. o.fdiv) x y

  unfoldable pub rem_lit : Lit → Lit → Result Lit
  unfolding arithmetic
  rem_lit x y =
      arithmetic
        (λ t a b. if b == 0 then err modulo_by_zero else ok (literal t (wrapping_rem t a b)))
        (λ o. o.frem) x y

unfoldable pub bitwise : (ℕ → ℕ → ℕ) → Lit → Lit → Result Lit
bitwise on_bits x y = elim (match_pair x y) [
  | ints t a b ↦ ok (literal t (on_bits a b))
  | _ ↦ err type_error
]

unfoldable pub and_lit : Lit → Lit → Result Lit
unfolding bitwise
and_lit x y = bitwise bit_and x y

unfoldable pub or_lit : Lit → Lit → Result Lit
unfolding bitwise
or_lit x y = bitwise bit_or x y

unfoldable pub xor_lit : Lit → Lit → Result Lit
unfolding bitwise
xor_lit x y = bitwise bit_xor x y

-- The amount is a `U32`, below the width.
unfoldable pub shift_by : (IntTy → ℕ → ℕ → ℕ) → Lit → Lit → Result Lit
shift_by on_bits x (Lit.u32 b) = elim (match_pair x x) [
  | ints t a _ ↦ if ltb b (width t) then ok (literal t (on_bits t a b)) else err shift_amount_error
  | _ ↦ err type_error
]
shift_by on_bits x _ = err type_error

unfoldable pub shl_lit : Lit → Lit → Result Lit
unfolding shift_by
shl_lit x y = shift_by (λ t a b. a * 2 ^ b % 2 ^ width t) x y

unfoldable pub shr_lit : Lit → Lit → Result Lit
unfolding shift_by
shr_lit x y = shift_by shift_right x y
