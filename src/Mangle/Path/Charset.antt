-- ===== src/Mangle/Path/Charset.antt =====
-- Mangled texts are made of letters, digits and `_`.
use mathlib.Core.List.{reverse}
use nitrate.Prelude.{
  ℕ, ◌/◌, ◌%◌, ◌<◌, ◌≡◌, refl, inl, inr, Bool, true, ◌&&◌, Option, List, [], ◌∷◌, map, foldl, ltb,
  ◌==◌, length, all, Bool-cases, and_true, arith,
}
use nitrate.Mangle.Bytes.{Str, is_ascii_digit, is_word, all-append}
use nitrate.Mangle.Decimal.{decimal, decimal-all}
use nitrate.Mangle.Hex.{hex_digit, to_hex}
use nitrate.Mangle.Base63.{alphabet, mul_add, encode_c99_base63}
use nitrate.Mangle.Segment.{is_c99_identifier, plain_segment, shorten, mangle_segment}
use nitrate.Mangle.Segment.Plain.{all-implies}
use nitrate.Mangle.Segment.Shapes.{identifier-plain_segment, hex-plain_segment}
use nitrate.Mangle.Path.{prepend, split, mangle_segments, mangle_string}

abbrev pub AreBytes : Str → Type 0
AreBytes s = all (λ b. ltb b 256) s ≡ true

pub decimal-is_word : (n : ℕ) → all is_word (decimal n) ≡ true
decimal-is_word n =
    all-implies is_ascii_digit is_word (decimal n) (λ c h. ground arith) (decimal-all n)

hex_digit-is_word : (n : ℕ) → n < 16 → is_word (hex_digit n) ≡ true
unfolding hex_digit
hex_digit-is_word n h = ground arith

to_hex-is_word : (s : Str) → AreBytes s → all is_word (to_hex s) ≡ true
unfolding to_hex
to_hex-is_word [] h = refl
to_hex-is_word (b ∷ s) h =
    let (low, rest) = and_true (ltb b 256) (all (λ b. ltb b 256) s) h in
    rw
      (
        hex_digit-is_word (b / 16) (ground arith),
        hex_digit-is_word (b % 16) (omega arith),
        to_hex-is_word s rest,
      )
      refl

alphabet-is_word : (d : ℕ) → is_word (alphabet d) ≡ true
unfolding alphabet
alphabet-is_word d = ground arith

map-alphabet-is_word : (ds : List ℕ) → all is_word (map alphabet ds) ≡ true
map-alphabet-is_word [] = refl
map-alphabet-is_word (d ∷ ds) = rw (alphabet-is_word d, map-alphabet-is_word ds) refl

encode_c99_base63-is_word : (s : Str) → all is_word (encode_c99_base63 s) ≡ true
unfolding encode_c99_base63
encode_c99_base63-is_word [] = refl
encode_c99_base63-is_word (c ∷ s) =
    map-alphabet-is_word
      (reverse (foldl (λ digits byte. mul_add 256 63 byte digits) (0 ∷ []) (c ∷ s)))

identifier-is_word : (s : Str) → is_c99_identifier s ≡ true → all is_word s ≡ true
unfolding is_c99_identifier
identifier-is_word [] h = refl
identifier-is_word (c ∷ s) h = ground arith

plain_segment-is_word : (s : Str) → AreBytes s → all is_word (plain_segment s) ≡ true
plain_segment-is_word s h = elim (Bool-cases (is_c99_identifier s)) [
  | inl identifier ↦ rw (identifier-plain_segment s identifier) (
      all-append is_word (decimal (length s)) s (decimal-is_word (length s))
        (identifier-is_word s identifier))
  | inr other ↦ rw (hex-plain_segment s other) (
      all-append is_word (decimal (length (to_hex s))) (b'_' ∷ to_hex s)
        (decimal-is_word (length (to_hex s))) (to_hex-is_word s h))
]

all-prepend :
    (p : ℕ → Bool) (c : ℕ) (ss : List Str)
    → p c ≡ true
    → all (all p) ss ≡ true
    → all (all p) (prepend c ss) ≡ true
all-prepend p c [] h k = ground (arith, h)
all-prepend p c (s ∷ ss) h k = ground (arith, h, k)

split-all : (p : ℕ → Bool) (s : Str) → all p s ≡ true → all (all p) (split s) ≡ true
unfolding split
split-all p [] h = refl
split-all p (c ∷ []) h = ground (arith, h)
split-all p (c ∷ d ∷ s) h =
    let (first, next) = and_true (p c) (all p (d ∷ s)) h in
    let (second, rest) = and_true (p d) (all p s) next in
    elim (Bool-cases (c == b':' && d == b':')) [
      | inl sep ↦ rw sep (split-all p s rest)
      | inr other ↦ rw other (all-prepend p c (split (d ∷ s)) first (split-all p (d ∷ s) next))
    ]

module _ (deflate : Str → Str) (inflate : Str → Option Str) where
  shorten-is_word :
      (s : Str) → all is_word s ≡ true → all is_word (shorten deflate inflate s) ≡ true
  unfolding shorten
  shorten-is_word s h =
      let base63 = encode_c99_base63 (deflate s) in
      elim (Bool-cases (ltb 64 (length s) && ltb (length (deflate s)) (length s))) [
        | inl short ↦ rw short (
            all-append is_word (decimal (length base63)) (b'_' ∷ base63)
              (decimal-is_word (length base63)) (encode_c99_base63-is_word (deflate s)))
        | inr long ↦ rw long h
      ]

  mangle_segment-is_word :
      (s : Str) → AreBytes s → all is_word (mangle_segment deflate inflate s) ≡ true
  unfolding mangle_segment
  mangle_segment-is_word [] h = refl
  mangle_segment-is_word (c ∷ s) h =
      shorten-is_word (plain_segment (c ∷ s)) (plain_segment-is_word (c ∷ s) h)

  mangle_segments-is_word :
      (ss : List Str)
      → all (all (λ b. ltb b 256)) ss ≡ true
      → all is_word (mangle_segments deflate inflate ss) ≡ true
  unfolding mangle_segments
  mangle_segments-is_word [] h = refl
  mangle_segments-is_word (s ∷ ss) h =
      let (here, there) = and_true (all (λ b. ltb b 256) s) (all (all (λ b. ltb b 256)) ss) h in
      all-append is_word (mangle_segment deflate inflate s) (mangle_segments deflate inflate ss)
        (mangle_segment-is_word s here) (mangle_segments-is_word ss there)

  -- A mangled path has letters, digits and `_` only, whatever the bytes of the path and the coder are.
  pub mangle_string-is_word :
      (s : Str)
      → all (λ b. ltb b 256) s ≡ true
      → all is_word (mangle_string deflate inflate s) ≡ true
  unfolding mangle_string
  mangle_string-is_word s h =
      all-append is_word (decimal (length (split s)))
        (b'_' ∷ mangle_segments deflate inflate (split s)) (decimal-is_word (length (split s)))
        (mangle_segments-is_word (split s) (split-all (λ b. ltb b 256) s h))
