-- ===== src/Lexer/RoundTrip/Numerals.antt =====
-- The digits of `{:b}`, `{:o}`, `{}` and `{:x}`.
use nitrate.Prelude.{
  ℕ, zero, suc, ◌+◌, ◌*◌, ◌/◌, ◌%◌, ◌≤◌, ◌<◌, ◌≡◌, refl, ap, ◌∙◌, true, false, [], ◌∷◌, ◌++◌, ltb,
  ◌==◌, all, Bool-cases, inl, inr, arith,
}
use nitrate.Mangle.Bytes.{Str, all-append}
use nitrate.Mangle.Hex.{hex_digit}
use nitrate.Lexer.Token.{IntegerKind, bin, oct, dec, hex}
use nitrate.Lexer.Escape.{hex_value}
use nitrate.Lexer.Number.{base_of, digit_test}
use nitrate.Lexer.Display.{digits_in}
use nitrate.Lexer.RoundTrip.Escapes.{number_value}

number_value-append :
    (base acc : ℕ) (xs ys : Str)
    → number_value base acc (xs ++ ys) ≡ number_value base (number_value base acc xs) ys
number_value-append base acc [] ys = refl
number_value-append base acc (b ∷ xs) ys = elim (Bool-cases (b == b'_')) [
  | inl skip ↦ rw skip (number_value-append base acc xs ys)
  | inr digit ↦ rw digit (number_value-append base (acc * base + hex_value b) xs ys)
]

-- A digit of a base.
digit-lt : (kind : IntegerKind) (n : ℕ) → n % base_of kind < base_of kind
unfolding base_of
digit-lt bin n = omega arith
digit-lt oct n = omega arith
digit-lt dec n = omega arith
digit-lt hex n = omega arith

quotient-lt : (kind : IntegerKind) (n : ℕ) → ltb n (base_of kind) ≡ false → n / base_of kind < n
unfolding base_of
quotient-lt bin n h = ground (arith, h)
quotient-lt oct n h = ground (arith, h)
quotient-lt dec n h = ground (arith, h)
quotient-lt hex n h = ground (arith, h)

whole : (kind : IntegerKind) (n : ℕ) → n / base_of kind * base_of kind + n % base_of kind ≡ n
unfolding base_of
whole bin n = omega arith
whole oct n = omega arith
whole dec n = omega arith
whole hex n = omega arith

digit_test-hex_digit :
    (kind : IntegerKind) (d : ℕ) → d < base_of kind → digit_test kind (hex_digit d) ≡ true
unfolding base_of digit_test hex_digit
digit_test-hex_digit bin d h = ground (arith, h)
digit_test-hex_digit oct d h = ground (arith, h)
digit_test-hex_digit dec d h = ground (arith, h)
digit_test-hex_digit hex d h = ground (arith, h)

one_value :
    (kind : IntegerKind) (acc d : ℕ)
    → d < base_of kind
    → number_value (base_of kind) acc (hex_digit d ∷ []) ≡ acc * base_of kind + d
unfolding base_of hex_digit hex_value
one_value bin acc d h = ground (arith, h)
one_value oct acc d h = ground (arith, h)
one_value dec acc d h = ground (arith, h)
one_value hex acc d h = ground (arith, h)

positive : (kind : IntegerKind) → 0 < base_of kind
unfolding base_of
positive bin = omega arith
positive oct = omega arith
positive dec = omega arith
positive hex = omega arith

pub digits_in-value :
    (kind : IntegerKind) (f n : ℕ) → n ≤ f → number_value (base_of kind) 0 (digits_in kind f n) ≡ n
unfolding digits_in
digits_in-value kind zero n h =
    let low : n < base_of kind = omega (arith, h, positive kind) in
    one_value kind 0 n low ∙ omega arith
digits_in-value kind (suc f) n h = elim (Bool-cases (ltb n (base_of kind))) [
  | inl one ↦ rw one (one_value kind 0 n (ground (arith, one)) ∙ omega arith)
  | inr more ↦
      let less = quotient-lt kind n more in
      rw more (
        number_value-append (base_of kind) 0 (digits_in kind f (n / base_of kind)) _
        ∙ ap (λ m. number_value (base_of kind) m (hex_digit (n % base_of kind) ∷ []))
            (digits_in-value kind f (n / base_of kind) (omega (arith, less, h)))
        ∙ one_value kind (n / base_of kind) (n % base_of kind) (digit-lt kind n)
        ∙ whole kind n)
]

pub digits_in-all :
    (kind : IntegerKind) (f n : ℕ) → n ≤ f → all (digit_test kind) (digits_in kind f n) ≡ true
unfolding digits_in
digits_in-all kind zero n h =
    let low : n < base_of kind = omega (arith, h, positive kind) in
    rw (digit_test-hex_digit kind n low) refl
digits_in-all kind (suc f) n h = elim (Bool-cases (ltb n (base_of kind))) [
  | inl one ↦ rw one (rw (digit_test-hex_digit kind n (ground (arith, one))) refl)
  | inr more ↦
      let less = quotient-lt kind n more in
      rw more (
        all-append (digit_test kind) (digits_in kind f (n / base_of kind)) _
          (digits_in-all kind f (n / base_of kind) (omega (arith, less, h)))
          (rw (digit_test-hex_digit kind (n % base_of kind) (digit-lt kind n)) refl))
]

pub digits_in-cons :
    (kind : IntegerKind) (f n : ℕ)
    → n ≤ f
    → (d : ℕ) × (s : Str) × (digits_in kind f n ≡ hex_digit d ∷ s) × (d < base_of kind)
unfolding digits_in
digits_in-cons kind zero n h = (n, [], refl, omega (arith, h, positive kind))
digits_in-cons kind (suc f) n h = elim (Bool-cases (ltb n (base_of kind))) [
  | inl one ↦ (n, [], rw one refl, ground (arith, one))
  | inr more ↦
      let less = quotient-lt kind n more in
      let (d, s, e, low) = digits_in-cons kind f (n / base_of kind) (omega (arith, less, h)) in
      (d, s ++ hex_digit (n % base_of kind) ∷ [], rw more (rw e refl), low)
]
