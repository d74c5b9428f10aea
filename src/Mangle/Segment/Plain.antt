-- ===== src/Mangle/Segment/Plain.antt =====
-- Segments that are not compressed are read back.
use nitrate.Prelude.{
  ℕ, ◌^◌, ◌<◌, ◌≡◌, refl, Bool, true, false, not, some, [], ◌∷◌, ◌++◌, ltb, ◌==◌, length, all,
  and_true, arith,
}
use nitrate.Mangle.Bytes.{
  Str, is_ascii_digit, from_utf8, is_utf8, split_at_first-append, split_exact-append, ascii-is_utf8,
}
use nitrate.Mangle.Decimal.{decimal, parse_usize, decimal-all, parse_unsigned-decimal}
use nitrate.Mangle.Hex.{to_hex, from_hex-to_hex}
use nitrate.Mangle.Segment.{ok, read_number, read_prefix, demangle_hex, demangle_identifier}

pub from_utf8_valid : (s : Str) → is_utf8 s ≡ true → from_utf8 s ≡ some s
unfolding from_utf8
from_utf8_valid s h = rw h refl

-- One test on bytes implies another.
pub all-implies :
    (p q : ℕ → Bool) (s : Str)
    → ((c : ℕ) → p c ≡ true → q c ≡ true)
    → all p s ≡ true
    → all q s ≡ true
all-implies p q [] f h = refl
all-implies p q (c ∷ s) f h =
    let (here, there) = and_true (p c) (all p s) h in rw (f c here, all-implies p q s f there) refl

pub decimal-ascii : (n : ℕ) → all (λ c. ltb c 128) (decimal n) ≡ true
decimal-ascii n =
    all-implies is_ascii_digit (λ c. ltb c 128) (decimal n) (λ c h. ground arith) (decimal-all n)

from_utf8-decimal : (n : ℕ) → from_utf8 (decimal n) ≡ some (decimal n)
from_utf8-decimal n = from_utf8_valid (decimal n) (ascii-is_utf8 (decimal n) (decimal-ascii n))

pub read_number-decimal :
    (bits n : ℕ) (rest : Str)
    → n < 2 ^ bits
    → read_number bits (decimal n ++ b'_' ∷ rest) ≡ some (n, rest)
unfolding read_number
read_number-decimal bits n rest h =
    let digits : all (λ c. not (c == b'_')) (decimal n) ≡ true =
      all-implies is_ascii_digit _ (decimal n) (λ c d. ground arith) (decimal-all n) in
    rw
      (
        split_at_first-append (λ c. c == b'_') (decimal n) b'_' rest digits refl,
        from_utf8-decimal n,
        parse_unsigned-decimal bits n h,
      )
      refl

pub read_prefix-decimal :
    (n : ℕ) (rest : Str) → n < 2 ^ 64 → read_prefix (decimal n ++ b'_' ∷ rest) ≡ some (n, rest)
unfolding read_prefix
read_prefix-decimal n rest h = read_number-decimal 64 n rest h

pub demangle_hex-to_hex :
    (s rest : Str)
    → is_utf8 s ≡ true
    → all (λ b. ltb b 256) s ≡ true
    → length (to_hex s) < 2 ^ 64
    → demangle_hex (decimal (length (to_hex s)) ++ b'_' ∷ (to_hex s ++ rest)) ≡ ok s rest
unfolding demangle_hex
demangle_hex-to_hex s rest u b l =
    rw
      (
        read_prefix-decimal (length (to_hex s)) (to_hex s ++ rest) l,
        split_exact-append (to_hex s) rest,
        from_hex-to_hex s b,
        from_utf8_valid s u,
      )
      refl

-- The digits in front of an identifier may be any that write its length.
pub demangle_identifier-digits :
    (digits : Str) (c : ℕ) (s rest : Str)
    → all is_ascii_digit digits ≡ true
    → parse_usize digits ≡ some (length (c ∷ s))
    → is_utf8 (c ∷ s) ≡ true
    → is_ascii_digit c ≡ false
    → demangle_identifier (digits ++ (c ∷ s ++ rest)) ≡ ok (c ∷ s) rest
unfolding demangle_identifier
demangle_identifier-digits digits c s rest a n u d =
    let before : all (λ c. not (not (is_ascii_digit c))) digits ≡ true =
      all-implies is_ascii_digit _ digits (λ c d. ground arith) a in
    let ascii = all-implies is_ascii_digit (λ c. ltb c 128) digits (λ c h. ground arith) a in
    rw
      (
        split_at_first-append (λ c. not (is_ascii_digit c)) digits c (s ++ rest) before
            (ground (arith, d)),
        from_utf8_valid digits (ascii-is_utf8 digits ascii),
        n,
        split_exact-append (c ∷ s) rest,
        from_utf8_valid (c ∷ s) u,
      )
      refl
