-- ===== src/Lexer/Number.antt =====
-- The numbers of lex.rs, over the parser of floats of the standard library.
use mathlib.Core.Option
use nitrate.Prelude.{
  ℕ, ◌+◌, ◌*◌, ◌^◌, Bool, false, ◌&&◌, ◌||◌, not, Option, none, some, [], ◌∷◌, ◌++◌, ltb, ◌==◌,
  if◌then◌else◌, retain,
}
use nitrate.Mangle.Bytes.{Str, is_ascii_digit}
use nitrate.Lexer.Token.{Token, IntegerKind, integer, float, bin, oct, dec, hex}
use nitrate.Lexer.Words.{same_text}
use nitrate.Lexer.Cursor.{Scan, fail, ◌>>=◌, ◌>>◌, lifted, or_else, skip_byte, bytes_while}
use nitrate.Lexer.Escape.{is_octal_digit, is_ascii_hexdigit, hex_value}

-- `u128::from_str_radix` of one digit.
unfoldable pub digit_of : ℕ → ℕ → Option ℕ
unfolding hex_value
digit_of base b = if is_ascii_hexdigit b && ltb (hex_value b) base then some (hex_value b) else none

-- Overflow of 128 bits and a digit that is none of the base are errors; `_` is skip_byte.
unfoldable pub radix_decode : ℕ → ℕ → Str → Option ℕ
unfolding digit_of
radix_decode base number [] = some number
radix_decode base number (b ∷ digits) =
    let skip = radix_decode base number digits in
    if b == b'_' then skip else elim (digit_of base b) [
      | none ↦ none
      | some d ↦
          let more = radix_decode base (number * base + d) digits in
          if ltb (number * base + d) (2 ^ 128) then more else none
    ]

abbrev pub is_digit_or_line : ℕ → Bool
is_digit_or_line b = is_ascii_digit b || b == b'_'

unfoldable pub base_of : IntegerKind → ℕ
base_of bin = 2
base_of oct = 8
base_of dec = 10
base_of hex = 16

unfoldable pub digit_test : IntegerKind → ℕ → Bool
digit_test bin b = b == b'0' || b == b'1' || b == b'_'
digit_test oct b = is_octal_digit b || b == b'_'
digit_test dec b = is_digit_or_line b
digit_test hex b = is_ascii_hexdigit b || b == b'_'

-- The letter behind the `0` of a literal.
unfoldable pub prefix_kind : ℕ → Option IntegerKind
prefix_kind b =
    if b == b'b'
    then some bin
    else if b == b'o'
    then some oct
    else if b == b'd'
    then some dec
    else if b == b'x'
    then some hex
    else none

-- A digit must stand behind the dot; else the cursor is where it was.
abbrev pub starts_fraction : Str → Bool
starts_fraction (a ∷ b ∷ _) = a == b'.' && is_ascii_digit b
starts_fraction _ = false

abbrev pub prefix_of : Str → Str → Option IntegerKind
prefix_of literal [] = none
prefix_of literal (b ∷ _) = if same_text literal (b'0' ∷ []) then prefix_kind b else none

module _ {F : Type 0} (parse_f64 : Str → Option F) where
  unfoldable pub convert_float_repr : Str → Option F
  convert_float_repr literal = parse_f64 (retain (λ b. not (b == b'_')) literal)

  unfoldable pub fraction : Str → Scan (Token F)
  unfolding bytes_while convert_float_repr
  fraction whole = do
    digits ← bytes_while is_digit_or_line
    lifted (Option.map float (convert_float_repr (whole ++ b'.' ∷ digits)))

  -- The digits before the dot are read already.
  unfoldable pub parse_float : Str → Scan (Token F)
  unfolding skip_byte fraction
  parse_float whole c =
      if starts_fraction c.input then (skip_byte >> fraction whole) c else (none, c)

  abbrev pub integer_token : IntegerKind → ℕ → Token F
  integer_token kind number = integer (record { value = number; kind = kind })

  unfoldable pub decode : IntegerKind → Str → Scan (Token F)
  unfolding radix_decode base_of
  decode kind literal =
      lifted (Option.map (integer_token kind) (radix_decode (base_of kind) 0 literal))

  unfoldable pub decode_digits : IntegerKind → Str → Scan (Token F)
  unfolding decode
  decode_digits kind [] = fail
  decode_digits kind (b ∷ literal) = decode kind (b ∷ literal)

  -- Digits behind a prefix.
  unfoldable pub parse_prefixed : IntegerKind → Scan (Token F)
  unfolding decode_digits digit_test skip_byte bytes_while
  parse_prefixed kind = do
    skip_byte
    literal ← bytes_while (digit_test kind)
    decode_digits kind literal

  -- Behind the digits: a prefixed number, a float, or else an integer.
  unfoldable pub number_by : Str → Option IntegerKind → Scan (Token F)
  unfolding parse_prefixed parse_float decode
  number_by literal (some kind) = parse_prefixed kind
  number_by literal none = or_else (parse_float literal) (decode dec literal)

  unfoldable pub parse_number : Scan (Token F)
  unfolding bytes_while prefix_kind number_by
  parse_number =
      bytes_while is_digit_or_line >>= λ literal c. number_by literal (prefix_of literal c.input) c
