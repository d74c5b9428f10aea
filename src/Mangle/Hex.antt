-- ===== src/Mangle/Hex.antt =====
-- Bytes as pairs of hexadecimal digits.
use nitrate.Prelude.{
  ℕ, ◌+◌, ◌-◌, ◌*◌, ◌/◌, ◌%◌, ◌<◌, ◌≡◌, refl, ap, true, ◌&&◌, Option, none, some, [], ◌∷◌, ltb, leb,
  if◌then◌else◌, all, and_true, arith,
}
use nitrate.Mangle.Bytes.{Str, ◌>>=◌, is_ascii_digit}

-- The digits of `{:02x}`.
unfoldable pub hex_digit : ℕ → ℕ
hex_digit n = if ltb n 10 then b'0' + n else b'a' + (n - 10)

unfoldable pub to_hex : Str → Str
unfolding hex_digit
to_hex [] = []
to_hex (b ∷ s) = hex_digit (b / 16) ∷ hex_digit (b % 16) ∷ to_hex s

-- `to_digit(16)`.
unfoldable pub to_digit : ℕ → Option ℕ
to_digit c =
    if is_ascii_digit c
    then some (c - b'0')
    else if leb b'a' c && leb c b'f'
    then some (c - b'a' + 10)
    else if leb b'A' c && leb c b'F'
    then some (c - b'A' + 10)
    else none

-- The pairs of `chunks(2)`; a length that is not even is an error.
unfoldable pub from_hex : Str → Option Str
unfolding to_digit
from_hex [] = some []
from_hex (_ ∷ []) = none
from_hex (a ∷ b ∷ s) =
    to_digit a >>= λ hi. to_digit b >>= λ lo. from_hex s >>= λ bytes. some ((hi * 16 + lo) ∷ bytes)

to_digit-hex_digit : (n : ℕ) → n < 16 → to_digit (hex_digit n) ≡ some n
unfolding to_digit hex_digit
to_digit-hex_digit n h = ground arith

hex_digit-lt : (n : ℕ) → n < 16 → hex_digit n < 128
unfolding hex_digit
hex_digit-lt n h = ground arith

-- What was printed in hexadecimal digits is read back.
pub from_hex-to_hex : (s : Str) → all (λ b. ltb b 256) s ≡ true → from_hex (to_hex s) ≡ some s
unfolding from_hex to_hex
from_hex-to_hex [] h = refl
from_hex-to_hex (b ∷ s) h =
    let (low, rest) = and_true (ltb b 256) (all (λ b. ltb b 256) s) h in
    let same : b / 16 * 16 + b % 16 ≡ b = omega arith in
    rw
      (
        to_digit-hex_digit (b / 16) (ground arith),
        to_digit-hex_digit (b % 16) (omega arith),
        from_hex-to_hex s rest,
      )
      (ap (λ c. some (c ∷ s)) same)

pub to_hex-ascii :
    (s : Str) → all (λ b. ltb b 256) s ≡ true → all (λ c. ltb c 128) (to_hex s) ≡ true
unfolding to_hex
to_hex-ascii [] h = refl
to_hex-ascii (b ∷ s) h =
    let (low, rest) = and_true (ltb b 256) (all (λ b. ltb b 256) s) h in
    ground (
      arith,
      hex_digit-lt (b / 16) (ground arith),
      hex_digit-lt (b % 16) (omega arith),
      to_hex-ascii s rest,
    )
