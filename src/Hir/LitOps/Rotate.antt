-- ===== src/Hir/LitOps/Rotate.antt =====
-- `rotate_left` and `rotate_right` of literal_ops.rs.
use nitrate.Prelude.{ℕ, ◌*◌, ◌/◌, ◌%◌, ◌<◌, Option, none, some, ◌≡◌, ap, arith}
use Prim.Native.Nat.{bit_and, bit_or}
use nitrate.Prelude.Bits.{bit-zero, bit-bit_and, bit_and-le, eq-zero_of_bits, lt-two_pow}
use nitrate.Hir.Lit.{Lit, literal, width, is_signed, int_ty, limit, size_of, new_integer}
use nitrate.Hir.LitOps.{
  type_error, Result, ok, err, Floats, match_pair, is_negative, shift_right, sub_lit, and_lit,
  or_lit, shl_lit, shr_lit, arithmetic, bitwise, shift_by,
}

-- A result, or the panic of an `unwrap`.
pub data Outcome : Type 0 where
  returned : Result Lit → Outcome
  panicked : Outcome

infixl 5 ◌>>=◌
abbrev ◌>>=◌ : Outcome → (Lit → Outcome) → Outcome
returned (ok x) >>= k = k x
returned (err e) >>= k = returned (err e)
panicked >>= k = panicked

abbrev unwrap_option : Option Lit → Outcome
unwrap_option (some x) = returned (ok x)
unwrap_option none = panicked

abbrev unwrap : Result Lit → Outcome
unwrap (ok x) = returned (ok x)
unwrap (err _) = panicked

-- `map_err(|_| TypeError)?`
abbrev or_type_error : Result Lit → Outcome
or_type_error (ok x) = returned (ok x)
or_type_error (err _) = returned (err type_error)

module _ (fl : Floats) where
  unfoldable pub rotate_left : Lit → Lit → Outcome
  rotate_left x rhs = do
    bit_width ← unwrap_option (new_integer rhs (size_of x))
    one ← unwrap_option (new_integer bit_width 1)
    bit_width_minus_one ← unwrap (sub_lit fl bit_width one)
    shift_amount ← unwrap (and_lit rhs bit_width_minus_one)
    left ← or_type_error (shl_lit x shift_amount)
    right_shift_amount ← unwrap (sub_lit fl bit_width shift_amount)
    right ← or_type_error (shr_lit x right_shift_amount)
    or_type_error (or_lit left right)

  unfoldable pub rotate_right : Lit → Lit → Outcome
  rotate_right x rhs = do
    bit_width ← unwrap_option (new_integer rhs (size_of x))
    one ← unwrap_option (new_integer bit_width 1)
    bit_width_minus_one ← unwrap (sub_lit fl bit_width one)
    shift_amount ← unwrap (and_lit rhs bit_width_minus_one)
    right ← or_type_error (shr_lit x shift_amount)
    left_shift_amount ← unwrap (sub_lit fl bit_width shift_amount)
    left ← or_type_error (shl_lit x left_shift_amount)
    or_type_error (or_lit left right)

bit_and_zero : (b : ℕ) → bit_and b 0 ≡ 0
bit_and_zero b =
    eq-zero_of_bits b (bit_and b 0) (omega (arith, bit_and-le b 0, lt-two_pow b))
      (λ k. ground (arith, bit-bit_and b 0 k, bit-zero k))

-- The rotation counts the bytes of the value as its bits. A `u8` is rotated by no amount: to the
-- left, it is joined with its half, and to the right, with its double, whatever the amount is.
rotate_u8 :
    (fl : Floats) (a b : ℕ)
    → a < 256
    → (rotate_left fl (Lit.u8 a) (Lit.u32 b) ≡ returned (ok (Lit.u8 (bit_or a (a / 2)))))
      × (rotate_right fl (Lit.u8 a) (Lit.u32 b) ≡ returned (ok (Lit.u8 (bit_or (a * 2 % 256) a))))
unfolding rotate_left rotate_right new_integer size_of int_ty limit literal width is_signed sub_lit
    and_lit match_pair arithmetic bitwise shl_lit shr_lit or_lit shift_by shift_right is_negative
rotate_u8 fl a b h = (
  rw (bit_and_zero b) (
      let same : a * 1 % 256 ≡ a = omega arith in
      ap (λ x. returned (ok (Lit.u8 (bit_or x (a / 2))))) same),
  rw (bit_and_zero b) (
      let same : a / 1 ≡ a = omega arith in
      ap (λ x. returned (ok (Lit.u8 (bit_or (a * 2 % 256) x)))) same),
)
