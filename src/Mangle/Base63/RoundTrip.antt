-- ===== src/Mangle/Base63/RoundTrip.antt =====
-- Base 63 and back.
use mathlib.Core.List.{reverse, reverse-cons, reverse-reverse}
use native.Mathlib.Nat.{zero-mod, zero-div, mod-lt, div-add-mod', mul-pos}
use nitrate.Prelude.{
  ℕ, ◌+◌, ◌*◌, ◌/◌, ◌%◌, ◌<◌, ◌≡◌, refl, sym, ap, subst, ◌∙◌, ◌⊎◌, inl, inr, true, some, List, [],
  ◌∷◌, ◌++◌, map, foldl, ltb, ◌==◌, all, and_true, Bool-cases, arith,
}
use nitrate.Mangle.Bytes.{Str, all-reverse}
use nitrate.Mangle.Base63.{
  alphabet, digit_value, push_carry, mul_add, encode_c99_base63, decode_from, decode_c99_base63,
}
use nitrate.Mangle.Base63.Numerals.{
  value, IsNumeral, value-push_carry, push_carry-IsNumeral, IsNumeral-all, append-IsNumeral,
  value-mul_add, mul_add-IsNumeral, IsNumeral-unique,
}

-- The number that digits in base `m` write, the highest first.
abbrev big_value : ℕ → ℕ → List ℕ → ℕ
big_value m acc [] = acc
big_value m acc (d ∷ ds) = big_value m (acc * m + d) ds

abbrev convert : ℕ → ℕ → List ℕ → List ℕ → List ℕ
convert m b = foldl (λ digits d. mul_add m b d digits)

value-convert :
    (m b : ℕ) (ds digits : List ℕ)
    → 1 < b
    → value b (convert m b digits ds) ≡ big_value m (value b digits) ds
value-convert m b [] digits h = refl
value-convert m b (d ∷ ds) digits h =
    value-convert m b ds (mul_add m b d digits) h
    ∙ ap (λ n. big_value m n ds) (value-mul_add m b d digits h)

-- Either the digit that the code starts with, or a numeral.
abbrev IsStart : ℕ → List ℕ → Type 0
IsStart b ds = (ds ≡ 0 ∷ []) ⊎ IsNumeral b ds

start_mul_add : (m b d : ℕ) → mul_add m b d (0 ∷ []) ≡ d % b ∷ push_carry (d / b) b (d / b)
unfolding mul_add
start_mul_add m b d = let e : 0 * m + d ≡ d = omega arith in rw e refl

started-IsNumeral : (b d : ℕ) → 1 < b → 0 < d → IsNumeral b (d % b ∷ push_carry (d / b) b (d / b))
unfolding IsNumeral
started-IsNumeral b d h p = (
  mod-lt d (omega arith),
  rw (value-push_carry (d / b) b (d / b) h (omega arith)) (ground (arith, div-add-mod' d b)),
  push_carry-IsNumeral (d / b) b (d / b) h (omega arith),
)

mul_add-IsStart :
    (m b d : ℕ) (ds : List ℕ) → 1 < b → 0 < m → IsStart b ds → IsStart b (mul_add m b d ds)
unfolding push_carry
mul_add-IsStart m b d ds h p s = elim s [
  | inl e ↦ rw e (elim (Bool-cases (d == 0)) [
    | inl nil ↦
        let q : d ≡ 0 = ground arith in
        inl (rw q (rw (start_mul_add m b 0, zero-mod b, zero-div b) refl))
    | inr more ↦
        inr
          (subst (IsNumeral b) (sym (start_mul_add m b d)) (started-IsNumeral b d h (ground arith)))
  ])
  | inr n ↦ inr (mul_add-IsNumeral m b d ds h p n)
]

convert-IsStart :
    (m b : ℕ) (ds digits : List ℕ)
    → 1 < b
    → 0 < m
    → IsStart b digits
    → IsStart b (convert m b digits ds)
convert-IsStart m b [] digits h p s = s
convert-IsStart m b (d ∷ ds) digits h p s =
    convert-IsStart m b ds (mul_add m b d digits) h p (mul_add-IsStart m b d digits h p s)

big_value-append :
    (m acc : ℕ) (xs ys : List ℕ) → big_value m acc (xs ++ ys) ≡ big_value m (big_value m acc xs) ys
big_value-append m acc [] ys = refl
big_value-append m acc (x ∷ xs) ys = big_value-append m (acc * m + x) xs ys

big_value-reverse : (m : ℕ) (ds : List ℕ) → big_value m 0 (reverse ds) ≡ value m ds
unfolding value
big_value-reverse m [] = refl
big_value-reverse m (d ∷ ds) =
    rw (reverse-cons d ds, big_value-append m 0 (reverse ds) (d ∷ []), big_value-reverse m ds)
      (omega arith)

digit_value-alphabet : (d : ℕ) → d < 63 → digit_value (alphabet d) ≡ some d
unfolding digit_value alphabet
digit_value-alphabet d h = ground arith

decode_from-alphabet :
    (ds bytes : List ℕ)
    → all (λ d. ltb d 63) ds ≡ true
    → decode_from bytes (map alphabet ds) ≡ some (convert 63 256 bytes ds)
unfolding decode_from
decode_from-alphabet [] bytes h = refl
decode_from-alphabet (d ∷ ds) bytes h =
    let (low, rest) = and_true (ltb d 63) (all (λ d. ltb d 63) ds) h in
    rw (digit_value-alphabet d (ground arith))
      (decode_from-alphabet ds (mul_add 63 256 d bytes) rest)

big_value_pos : (m acc : ℕ) (ds : List ℕ) → 0 < m → 0 < acc → 0 < big_value m acc ds
big_value_pos m acc [] h p = p
big_value_pos m acc (d ∷ ds) h p = big_value_pos m (acc * m + d) ds h (omega (arith, mul-pos p h))

-- Digits of a number above zero are a numeral.
start_pos : (b : ℕ) (ds : List ℕ) → IsStart b ds → 0 < value b ds → IsNumeral b ds
unfolding value
start_pos b ds (inl e) p = absurd (let q = ap (value b) e in omega (arith, q))
start_pos b ds (inr n) p = n

converted :
    (m b : ℕ) (ds : List ℕ)
    → 1 < b
    → 0 < m
    → 0 < big_value m 0 ds
    → (value b (convert m b (0 ∷ []) ds) ≡ big_value m 0 ds) × IsNumeral b (convert m b (0 ∷ []) ds)
unfolding value
converted m b ds h p v =
    let nil : value b (0 ∷ []) ≡ 0 = omega arith in
    let e = value-convert m b ds (0 ∷ []) h ∙ ap (λ n. big_value m n ds) nil in
    (e, start_pos b _ (convert-IsStart m b ds (0 ∷ []) h p (inl refl)) (subst (◌<◌ 0) (sym e) v))

map_empty : (xs : List ℕ) → map alphabet xs ≡ [] → xs ≡ []
map_empty [] e = refl
map_empty (x ∷ xs) e = absurd (ground arith)

decode_some :
    (s bytes : Str)
    → (s ≡ [] → ⊥)
    → decode_from (0 ∷ []) s ≡ some bytes
    → decode_c99_base63 s ≡ some (reverse bytes)
unfolding decode_c99_base63
decode_some [] bytes h e = absurd (h refl)
decode_some (c ∷ s) bytes h e = rw e refl

encode-convert :
    (c : ℕ) (rest : Str)
    → encode_c99_base63 (c ∷ rest) ≡ map alphabet (reverse (convert 256 63 (0 ∷ []) (c ∷ rest)))
unfolding encode_c99_base63
encode-convert c rest = refl

bytes-IsNumeral :
    (c : ℕ) (rest : Str)
    → 0 < c
    → all (λ b. ltb b 256) (c ∷ rest) ≡ true
    → IsNumeral 256 (reverse (c ∷ rest))
bytes-IsNumeral c rest p a =
    let (low, others) = and_true (ltb c 256) (all (λ b. ltb b 256) rest) a in
    rw (reverse-cons c rest) (
      append-IsNumeral 256 c (reverse rest) (omega arith) p (ground arith)
        (all-reverse (λ b. ltb b 256) rest others))

-- Bytes that do not begin with zero are decoded from what they are encoded as.
pub decode_c99_base63-encode_c99_base63 :
    (c : ℕ) (rest : Str)
    → 0 < c
    → all (λ b. ltb b 256) (c ∷ rest) ≡ true
    → decode_c99_base63 (encode_c99_base63 (c ∷ rest)) ≡ some (c ∷ rest)
decode_c99_base63-encode_c99_base63 c rest p a =
    let bytes = c ∷ rest in
    let digits = convert 256 63 (0 ∷ []) bytes in
    let above = big_value_pos 256 (0 * 256 + c) rest (omega arith) (omega arith) in
    let (counted, numeral) = converted 256 63 bytes (omega arith) (omega arith) above in
    let same = big_value-reverse 63 digits ∙ counted in
    let positive = subst (◌<◌ 0) (sym same) above in
    let (back, result) = converted 63 256 (reverse digits) (omega arith) (omega arith) positive in
    let given =
      sym (big_value-reverse 256 (reverse bytes)) ∙ ap (big_value 256 0) (reverse-reverse bytes) in
    let equal =
      IsNumeral-unique 256 _ (reverse bytes) (omega arith) result (bytes-IsNumeral c rest p a)
        (back ∙ same ∙ sym given) in
    let decoded =
      decode_from-alphabet (reverse digits) (0 ∷ [])
        (all-reverse (λ d. ltb d 63) digits (IsNumeral-all 63 digits numeral)) in
    let written : map alphabet (reverse digits) ≡ [] → ⊥ = λ e.
      let q = ap (big_value 63 0) (map_empty (reverse digits) e) in omega (arith, positive, q) in
    rw (encode-convert c rest) (
      decode_some (map alphabet (reverse digits)) _ written decoded
      ∙ ap some (ap reverse equal ∙ reverse-reverse bytes))
