-- ===== src/Mangle/Segment/Shapes.antt =====
-- The characters of encoded segments.
use mathlib.Core.List.{reverse}
use nitrate.Prelude.{
  ℕ, zero, suc, ◌<◌, ◌≡◌, refl, inl, inr, true, false, ◌||◌, some, List, [], ◌∷◌, ◌++◌, map, foldl,
  ltb, ◌==◌, length, all, and_true, Bool-cases, Option-cases, arith,
}
use nitrate.Mangle.Bytes.{
  Str, is_ascii_digit, is_ascii_alphabetic, is_word, is_utf8, lead, utf8_from, all-append,
}
use nitrate.Mangle.Decimal.{decimal}
use nitrate.Mangle.Hex.{to_hex, to_hex-ascii}
use nitrate.Mangle.Base63.{alphabet, mul_add, encode_c99_base63}
use nitrate.Mangle.Segment.{is_c99_identifier, plain_segment}
use nitrate.Mangle.Segment.Plain.{all-implies, decimal-ascii}

lead-lt : (b n lo hi : ℕ) → lead b ≡ some (n, lo, hi) → (b < 256) × (hi < 256)
unfolding lead
lead-lt b n lo hi e = (ground arith, ground arith)

pub utf8_from-bytes :
    (n lo hi : ℕ) (s : Str) → hi < 256 → utf8_from n lo hi s ≡ true → all (λ b. ltb b 256) s ≡ true
unfolding utf8_from
utf8_from-bytes n lo hi [] l h = refl
utf8_from-bytes zero lo hi (b ∷ s) l h = elim (Option-cases (lead b)) [
  | inl e ↦ absurd (ground arith)
  | inr ((n, low, high), e) ↦
      let (byte, range) = lead-lt b n low high e in
      ground (arith, byte, utf8_from-bytes n low high s range (ground arith))
]
utf8_from-bytes (suc n) lo hi (b ∷ s) l h =
    ground (arith, h, utf8_from-bytes n 128 191 s (omega arith))

alphabet-lt : (d : ℕ) → alphabet d < 128
unfolding alphabet
alphabet-lt d = ground arith

map-alphabet_ascii : (ds : List ℕ) → all (λ c. ltb c 128) (map alphabet ds) ≡ true
map-alphabet_ascii [] = refl
map-alphabet_ascii (d ∷ ds) = ground (arith, alphabet-lt d, map-alphabet_ascii ds)

pub encode_c99_base63-ascii : (data' : Str) → all (λ c. ltb c 128) (encode_c99_base63 data') ≡ true
unfolding encode_c99_base63
encode_c99_base63-ascii [] = refl
encode_c99_base63-ascii (c ∷ s) =
    map-alphabet_ascii
      (reverse (foldl (λ digits byte. mul_add 256 63 byte digits) (0 ∷ []) (c ∷ s)))

pub identifier-plain_segment :
    (s : Str) → is_c99_identifier s ≡ true → plain_segment s ≡ decimal (length s) ++ s
unfolding plain_segment
identifier-plain_segment s h = rw (h, is_c99_identifier) refl

pub hex-plain_segment :
    (s : Str)
    → is_c99_identifier s ≡ false
    → plain_segment s ≡ b'x' ∷ decimal (length (to_hex s)) ++ b'_' ∷ to_hex s
unfolding plain_segment
hex-plain_segment s h = rw (h, is_c99_identifier) refl

pub not_digit : (c : ℕ) (s : Str) → is_c99_identifier (c ∷ s) ≡ true → is_ascii_digit c ≡ false
unfolding is_c99_identifier
not_digit c s h = ground arith

pub identifier-ascii :
    (c : ℕ) (s : Str) → is_c99_identifier (c ∷ s) ≡ true → all (λ c. ltb c 128) (c ∷ s) ≡ true
unfolding is_c99_identifier
identifier-ascii c s h =
    let (first, rest) = and_true (is_ascii_alphabetic c || c == b'_') (all is_word s) h in
    let ascii = all-implies is_word (λ c. ltb c 128) s (λ c w. ground arith) rest in
    ground (arith, first, ascii)

pub plain_segment-ascii :
    (c : ℕ) (s : Str) → is_utf8 (c ∷ s) ≡ true → all (λ c. ltb c 128) (plain_segment (c ∷ s)) ≡ true
unfolding is_utf8
plain_segment-ascii c s u = elim (Bool-cases (is_c99_identifier (c ∷ s))) [
  | inl identifier ↦ rw (identifier-plain_segment (c ∷ s) identifier) (
      all-append (λ c. ltb c 128) (decimal (length (c ∷ s))) (c ∷ s)
        (decimal-ascii (length (c ∷ s))) (identifier-ascii c s identifier))
  | inr other ↦
      let bytes = utf8_from-bytes 0 128 191 (c ∷ s) (omega arith) u in
      let hex = to_hex (c ∷ s) in
      rw (hex-plain_segment (c ∷ s) other) (
        all-append (λ c. ltb c 128) (decimal (length hex)) (b'_' ∷ hex) (decimal-ascii (length hex))
          (to_hex-ascii (c ∷ s) bytes))
]
