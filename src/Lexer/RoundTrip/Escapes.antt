-- ===== src/Lexer/RoundTrip/Escapes.antt =====
-- The numbers in escapes and in integers.
use mathlib.Core.List.{foldl}
use nitrate.Lexer.RoundTrip.Digits.{read_digits-all}
use nitrate.Prelude.{
  and_true, all, ℕ, ◌+◌, ◌-◌, ◌*◌, ◌%◌, ◌^◌, ◌≤◌, ◌<◌, ◌≡◌, refl, ap, ◌∙◌, true, false, Option,
  none, some, [], ◌∷◌, ltb, ◌==◌, if◌then◌else◌, Bool-cases, inl, inr, arith,
}
use nitrate.Mangle.Bytes.{Str}
use nitrate.Lexer.Token.{IntegerKind, bin, oct, dec, hex}
use nitrate.Lexer.Cursor.{LexPos, Cursor}
use nitrate.Lexer.Escape.{
  StringEscape, byte, shift_in, is_octal_digit, parse_string_octal_escape, hex_value,
}
use nitrate.Lexer.Number.{base_of, digit_test, digit_of, radix_decode}
use nitrate.Lexer.Reads.{advance_all}

octal : (a : ℕ) → is_octal_digit a ≡ true → a - b'0' < 8
octal a h = ground (arith, h)

low_bits :
    (x y z : ℕ)
    → x < 8
    → y < 8
    → z < 8
    → shift_in 8 3 (shift_in 8 3 (shift_in 8 3 0 x) y) z ≡ (x * 64 + y * 8 + z) % 256
low_bits x y z h k l = omega (arith, h, k, l)

-- An octal escape gives the low eight bits of its number: `\o400` is the byte 0, and no error.
pub parse_string_octal_escape_low :
    (a b c : ℕ) (rest : Str) (pos : LexPos)
    → is_octal_digit a ≡ true
    → is_octal_digit b ≡ true
    → is_octal_digit c ≡ true
    → parse_string_octal_escape (record { input = a ∷ b ∷ c ∷ rest; pos = pos }) ≡ (
      some (byte (((a - b'0') * 64 + (b - b'0') * 8 + (c - b'0')) % 256)),
      record { input = rest; pos = advance_all (a ∷ b ∷ c ∷ []) pos },
    )
unfolding parse_string_octal_escape
parse_string_octal_escape_low a b c rest pos h k l =
    ap
      (λ (r : Option Str × Cursor). elim r.0 as (λ _. Option StringEscape × Cursor) [
        | some bs ↦ (some (byte (foldl (λ value d. shift_in 8 3 value (d - b'0')) 0 bs)), r.1)
        | none ↦ (none, r.1)
      ])
      (read_digits-all is_octal_digit (a ∷ b ∷ c ∷ []) rest pos (rw (h, k, l) refl))
    ∙ ap (λ n. (some (byte n), record { input = rest; pos = advance_all (a ∷ b ∷ c ∷ []) pos }))
        (low_bits (a - b'0') (b - b'0') (c - b'0') (octal a h) (octal b k) (octal c l))

-- The number that some digits are in a base, without a largest number.
abbrev pub number_value : ℕ → ℕ → Str → ℕ
number_value base acc [] = acc
number_value base acc (b ∷ digits) =
    let skip = number_value base acc digits in
    let next = number_value base (acc * base + hex_value b) digits in
    if b == b'_' then skip else next

grows : (kind : IntegerKind) (acc : ℕ) → acc ≤ acc * base_of kind
unfolding base_of
grows bin acc = omega arith
grows oct acc = omega arith
grows dec acc = omega arith
grows hex acc = omega arith

number_value-ge :
    (kind : IntegerKind) (acc : ℕ) (digits : Str) → acc ≤ number_value (base_of kind) acc digits
number_value-ge kind acc [] = omega arith
number_value-ge kind acc (b ∷ digits) = elim (Bool-cases (b == b'_')) [
  | inl skip ↦ rw skip (number_value-ge kind acc digits)
  | inr digit ↦ rw digit (
      omega (arith, grows kind acc, number_value-ge kind (acc * base_of kind + hex_value b) digits))
]

digit_of-digit_test :
    (kind : IntegerKind) (b : ℕ)
    → digit_test kind b ≡ true
    → (b == b'_') ≡ false
    → digit_of (base_of kind) b ≡ some (hex_value b)
unfolding digit_of base_of digit_test hex_value
digit_of-digit_test bin b h n = ground (arith, h, n)
digit_of-digit_test oct b h n = ground (arith, h, n)
digit_of-digit_test dec b h n = ground (arith, h, n)
digit_of-digit_test hex b h n = ground (arith, h, n)

radix_decode_from :
    (kind : IntegerKind) (acc : ℕ) (digits : Str)
    → acc < 2 ^ 128
    → all (digit_test kind) digits ≡ true
    → radix_decode (base_of kind) acc digits ≡ (
        if ltb (number_value (base_of kind) acc digits) (2 ^ 128)
        then some (number_value (base_of kind) acc digits)
        else none)
unfolding radix_decode
radix_decode_from kind acc [] h k = ground (arith, h)
radix_decode_from kind acc (b ∷ digits) h k =
    let (first, later) = and_true (digit_test kind b) (all (digit_test kind) digits) k in
    let next = acc * base_of kind + hex_value b in
    elim (Bool-cases (b == b'_')) [
      | inl skip ↦ rw skip (radix_decode_from kind acc digits h later)
      | inr digit ↦
          rw (digit, digit_of-digit_test kind b first digit)
            (elim (Bool-cases (ltb next (2 ^ 128))) [
              | inl fits ↦ rw fits (radix_decode_from kind next digits (ground (arith, fits)) later)
              | inr large ↦
                  let more = number_value-ge kind next digits in
                  let over : ltb (number_value (base_of kind) next digits) (2 ^ 128) ≡ false =
                    ground (arith, large, more) in
                  rw (large, over) refl
            ])
    ]

-- The digits of a literal, and the lines between them, are the number that they are in their base, as
-- long as it has no more than 128 bits; a number that has more is an error, whatever its length.
pub radix_decode-number_value :
    (kind : IntegerKind) (digits : Str)
    → all (digit_test kind) digits ≡ true
    → radix_decode (base_of kind) 0 digits ≡ (
        if ltb (number_value (base_of kind) 0 digits) (2 ^ 128)
        then some (number_value (base_of kind) 0 digits)
        else none)
radix_decode-number_value kind digits h = radix_decode_from kind 0 digits (omega arith) h
