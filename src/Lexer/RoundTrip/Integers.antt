-- ===== src/Lexer/RoundTrip/Integers.antt =====
-- The integers that token.rs prints, read by lex.rs.
use nitrate.Prelude.{
  ℕ, ◌^◌, ◌<◌, ◌≡◌, refl, sym, ap, ◌∙◌, Bool, true, false, Option, none, some, [], ◌∷◌, ltb, ◌==◌,
  if◌then◌else◌, all, and_true, arith,
}
use nitrate.Mangle.Bytes.{Str, is_ascii_digit}
use mathlib.Core.Option
use nitrate.Mangle.Hex.{hex_digit}
use nitrate.Lexer.Token.{Token, Integer, IntegerKind, bin, oct, dec, hex, integer}
use nitrate.Lexer.Cursor.{
  LexPos, Cursor, peek_byte, advance, skip_byte, read_from, read_while, bytes_while,
}
use nitrate.Lexer.Number.{
  prefix_of, base_of, digit_test, parse_number, number_by, parse_prefixed, decode, decode_digits,
  parse_float, integer_token,
}
use nitrate.Lexer.Scan.{parse_at, parse_token, is_identifier_start, unwrap_or_eof}
use nitrate.Lexer.Display.{digits_in, display_prefix, display_integer}
use nitrate.Lexer.Reads.{advance_all}
use nitrate.Lexer.RoundTrip.Escapes.{radix_decode-number_value}
use nitrate.Lexer.RoundTrip.Numerals.{digits_in-value, digits_in-all, digits_in-cons}

-- All the input is of one kind.
read_from-all :
    (p : ℕ → Bool) (s : Str) (pos : LexPos)
    → all p s ≡ true
    → read_from p s pos ≡ (s, record { input = []; pos = advance_all s pos })
unfolding read_from
read_from-all p [] pos h = refl
read_from-all p (b ∷ s) pos h =
    let (first, later) = and_true (p b) (all p s) h in
    rw (first, read_from-all p s (advance_all (b ∷ []) pos) later) refl

bytes_while-all :
    (p : ℕ → Bool) (s : Str) (pos : LexPos)
    → all p s ≡ true
    → bytes_while p (record { input = s; pos = pos })
      ≡ (some s, record { input = []; pos = advance_all s pos })
unfolding bytes_while read_while
bytes_while-all p s pos h = rw (read_from-all p s pos h) refl

module _ {F : Type 0} (parse_f64 : Str → Option F) where
  digits_decode :
      (kind : IntegerKind) (n : ℕ) (c : Cursor)
      → n < 2 ^ 128
      → decode parse_f64 kind (digits_in kind n n) c ≡ (some (integer_token parse_f64 kind n), c)
  unfolding decode
  digits_decode kind n c h =
      let value = digits_in-value kind n n (omega arith) in
      let read =
        radix_decode-number_value kind (digits_in kind n n)
          (digits_in-all kind n n (omega arith)) in
      let low : ltb n (2 ^ 128) ≡ true = ground (arith, h) in
      let fits : (if ltb n (2 ^ 128) then some n else none) ≡ some n = rw low refl in
      ap (λ o. (Option.map (integer_token parse_f64 kind) o, c))
        (read ∙ ap (λ m. if ltb m (2 ^ 128) then some m else none) value ∙ fits)

  digits_decode_some :
      (kind : IntegerKind) (n : ℕ) (c : Cursor)
      → n < 2 ^ 128
      → decode_digits parse_f64 kind (digits_in kind n n) c
        ≡ (some (integer_token parse_f64 kind n), c)
  unfolding decode_digits
  digits_decode_some kind n c h =
      let (d, s, e, low) = digits_in-cons kind n n (omega arith) in
      ap (λ t. decode_digits parse_f64 kind t c) e
      ∙ ap (λ t. decode parse_f64 kind t c) (sym e)
      ∙ digits_decode kind n c h

  -- Behind the letter of the prefix.
  prefixed :
      (kind : IntegerKind) (letter n : ℕ) (pos : LexPos)
      → n < 2 ^ 128
      → parse_prefixed parse_f64 kind (record { input = letter ∷ digits_in kind n n; pos = pos })
        ≡ (
          some (integer_token parse_f64 kind n),
          record { input = []; pos = advance_all (letter ∷ digits_in kind n n) pos },
        )
  unfolding parse_prefixed skip_byte advance
  prefixed kind letter n pos h =
      let at = advance_all (letter ∷ []) pos in
      ap
        (λ (r : Option Str × Cursor). elim r.0 as (λ _. Option (Token F) × Cursor) [
          | some literal ↦ decode_digits parse_f64 kind literal r.1
          | none ↦ (none, r.1)
        ])
        (bytes_while-all (digit_test kind) (digits_in kind n n) at
          (digits_in-all kind n n (omega arith)))
      ∙ digits_decode_some kind n _ h

  plain :
      (n : ℕ) (pos : LexPos)
      → n < 2 ^ 128
      → parse_number parse_f64 (record { input = digits_in dec n n; pos = pos }) ≡ (
        some (integer_token parse_f64 dec n),
        record { input = []; pos = advance_all (digits_in dec n n) pos },
      )
  unfolding parse_number number_by parse_float
  plain n pos h =
      ap
        (λ (r : Option Str × Cursor). elim r.0 as (λ _. Option (Token F) × Cursor) [
          | some literal ↦ number_by parse_f64 literal (prefix_of literal r.1.input) r.1
          | none ↦ (none, r.1)
        ])
        (bytes_while-all (digit_test dec) (digits_in dec n n) pos
          (digits_in-all dec n n (omega arith)))
      ∙ digits_decode dec n _ h

  parse_number-display :
      (i : Integer) (pos : LexPos)
      → i.value < 2 ^ 128
      → parse_number parse_f64 (record { input = display_integer i; pos = pos })
        ≡ (some (integer i), record { input = []; pos = advance_all (display_integer i) pos })
  unfolding display_integer display_prefix parse_number number_by bytes_while read_while read_from
  parse_number-display i pos h = on_kind i.kind i.value h
    where
      on_kind :
          (kind : IntegerKind) (n : ℕ)
          → n < 2 ^ 128
          → parse_number parse_f64
              (record { input = display_integer (record { value = n; kind = kind }); pos = pos })
            ≡ (
              some (integer (record { value = n; kind = kind })),
              record {
                input = [];
                pos = advance_all (display_integer (record { value = n; kind = kind })) pos;
              },
            )
      on_kind bin n h = prefixed bin b'b' n _ h
      on_kind oct n h = prefixed oct b'o' n _ h
      on_kind dec n h = plain n pos h
      on_kind hex n h = prefixed hex b'x' n _ h

  parse_at-digit :
      (b : ℕ) (c : Cursor)
      → is_ascii_digit b ≡ true
      → parse_at parse_f64 b c ≡ parse_number parse_f64 c
  unfolding parse_at
  parse_at-digit b c h =
      let tick : (b == b'`') ≡ false = ground (arith, h) in
      let start : is_identifier_start b ≡ false = ground (arith, h) in rw (tick, start, h) refl

  dec_digit :
      (n : ℕ) → (c : ℕ) × (s : Str) × (digits_in dec n n ≡ c ∷ s) × (is_ascii_digit c ≡ true)
  unfolding base_of hex_digit
  dec_digit n =
      let (d, s, e, low) = digits_in-cons dec n n (omega arith) in
      (hex_digit d, s, e, ground (arith, low))

  display_integer-digit :
      (i : Integer) → (c : ℕ) × (s : Str) × (display_integer i ≡ c ∷ s) × (is_ascii_digit c ≡ true)
  unfolding display_integer display_prefix
  display_integer-digit i = on_kind i.kind i.value
    where
      on_kind :
          (kind : IntegerKind) (n : ℕ)
          → (c : ℕ) × (s : Str) × (display_integer (record { value = n; kind = kind }) ≡ c ∷ s)
            × (is_ascii_digit c ≡ true)
      on_kind bin n = (b'0', b'b' ∷ digits_in bin n n, refl, refl)
      on_kind oct n = (b'0', b'o' ∷ digits_in oct n n, refl, refl)
      on_kind dec n = dec_digit n
      on_kind hex n = (b'0', b'x' ∷ digits_in hex n n, refl, refl)

  -- What is printed for an integer of 128 bits, in any of the four bases, is read as that integer in
  -- that base, to the end.
  pub parse_token-display_integer :
      (i : Integer) (pos : LexPos)
      → i.value < 2 ^ 128
      → parse_token parse_f64 (record { input = display_integer i; pos = pos })
        ≡ (integer i, record { input = []; pos = advance_all (display_integer i) pos })
  unfolding parse_token peek_byte
  parse_token-display_integer i pos h =
      let (c, s, e, digit) = display_integer-digit i in
      ap (λ t. parse_token parse_f64 (record { input = t; pos = pos })) e
      ∙ ap (unwrap_or_eof parse_f64) (parse_at-digit c (record { input = c ∷ s; pos = pos }) digit)
      ∙ ap (λ t. unwrap_or_eof parse_f64 (parse_number parse_f64 (record { input = t; pos = pos })))
          (sym e)
      ∙ ap (unwrap_or_eof parse_f64) (parse_number-display i pos h)
