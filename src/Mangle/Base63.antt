-- ===== src/Mangle/Base63.antt =====
-- `encode_c99_base63` and `decode_c99_base63`: a number is carried from one base to the other.
pub mod Numerals
pub mod RoundTrip
use mathlib.Core.List.{reverse}
use nitrate.Prelude.{
  ℕ, zero, suc, ◌+◌, ◌-◌, ◌*◌, ◌/◌, ◌%◌, Bool, true, false, ◌&&◌, Option, none, some, List, [], ◌∷◌,
  map, foldl, ltb, leb, ◌==◌, if◌then◌else◌,
}
use nitrate.Mangle.Bytes.{Str, ◌>>=◌, is_ascii_digit}

-- The digits of `C99_ALPHABET`.
unfoldable pub alphabet : ℕ → ℕ
alphabet d =
    if ltb d 26
    then b'A' + d
    else if ltb d 52
    then b'a' + (d - 26)
    else if ltb d 62
    then b'0' + (d - 52)
    else b'_'

unfoldable pub digit_value : ℕ → Option ℕ
digit_value c =
    if leb b'A' c && leb c b'Z'
    then some (c - b'A')
    else if leb b'a' c && leb c b'z'
    then some (c - b'a' + 26)
    else if is_ascii_digit c
    then some (c - b'0' + 52)
    else if c == b'_'
    then some 62
    else none

-- `while carry > 0`. A carry has no more digits than its number.
unfoldable pub push_carry : ℕ → ℕ → ℕ → List ℕ
push_carry zero b carry = []
push_carry (suc fuel) b carry =
    let more = carry % b ∷ push_carry fuel b (carry / b) in if carry == 0 then [] else more

-- The digits in base `b`, the lowest first, times `m` and plus a carry.
unfoldable pub mul_add : ℕ → ℕ → ℕ → List ℕ → List ℕ
unfolding push_carry
mul_add m b carry [] = push_carry carry b carry
mul_add m b carry (d ∷ ds) = (d * m + carry) % b ∷ mul_add m b ((d * m + carry) / b) ds

unfoldable pub encode_c99_base63 : Str → Str
unfolding mul_add alphabet
encode_c99_base63 [] = []
encode_c99_base63 (c ∷ data') =
    map alphabet (reverse (foldl (λ digits byte. mul_add 256 63 byte digits) (0 ∷ []) (c ∷ data')))

unfoldable pub decode_from : List ℕ → Str → Option (List ℕ)
unfolding mul_add digit_value
decode_from bytes [] = some bytes
decode_from bytes (c ∷ s) = digit_value c >>= λ val. decode_from (mul_add 63 256 val bytes) s

unfoldable pub decode_c99_base63 : Str → Option Str
unfolding decode_from
decode_c99_base63 [] = some []
decode_c99_base63 (c ∷ s) = decode_from (0 ∷ []) (c ∷ s) >>= λ bytes. some (reverse bytes)
