-- ===== src/Lexer/Escape.antt =====
-- The escapes in strings of lex.rs.
use nitrate.Prelude.{
  ℕ, zero, suc, ◌+◌, ◌-◌, ◌*◌, ◌/◌, ◌%◌, ◌^◌, Bool, ◌&&◌, ◌||◌, not, [], ◌∷◌, ltb, leb, ◌==◌,
  if◌then◌else◌, length, foldl,
}
use nitrate.Mangle.Bytes.{Str, is_ascii_digit}
use nitrate.Lexer.Cursor.{Scan, pure, fail, ◌>>=◌, ◌>>◌, peeked, skip_byte, bytes_while}

pub data StringEscape : Type 0 where
  char byte : ℕ → StringEscape

abbrev pub is_octal_digit : ℕ → Bool
is_octal_digit c = leb b'0' c && leb c b'7'

abbrev pub is_ascii_hexdigit : ℕ → Bool
is_ascii_hexdigit c = is_ascii_digit c || (leb b'a' c && leb c b'f') || (leb b'A' c && leb c b'F')

abbrev pub to_ascii_lowercase : ℕ → ℕ
to_ascii_lowercase c = if leb b'A' c && leb c b'Z' then c + 32 else c

unfoldable pub hex_value : ℕ → ℕ
hex_value c =
    let digit = to_ascii_lowercase c in
    if is_ascii_digit digit then digit - b'0' else digit - b'a' + 10

-- Some digits of one kind.
unfoldable pub read_digits : ℕ → (ℕ → Bool) → Scan Str
unfolding peeked skip_byte
read_digits zero p = pure []
read_digits (suc n) p = do
  b ← peeked
  if p b then (skip_byte >> (read_digits n p >>= λ bs. pure (b ∷ bs))) else fail

-- `(value << k) | digit` on some bits; the low bits are zero, so that `|` adds.
abbrev pub shift_in : ℕ → ℕ → ℕ → ℕ → ℕ
shift_in bits k value digit = value * 2 ^ k % 2 ^ bits + digit

unfoldable pub parse_string_hex_escape : Scan StringEscape
unfolding read_digits hex_value
parse_string_hex_escape = do
  digits ← read_digits 2 is_ascii_hexdigit
  pure (byte (foldl (λ value d. shift_in 8 4 value (hex_value d)) 0 digits))

unfoldable pub parse_string_octal_escape : Scan StringEscape
unfolding read_digits
parse_string_octal_escape = do
  digits ← read_digits 3 is_octal_digit
  pure (byte (foldl (λ value d. shift_in 8 3 value (d - b'0')) 0 digits))

-- `char::from_u32`: no surrogate, and no more than the last character.
abbrev pub is_scalar : ℕ → Bool
is_scalar n = ltb n 0xD800 || (leb 0xE000 n && ltb n 0x110000)

-- `peek_byte()? == b`, and one byte on.
unfoldable pub expect_byte : ℕ → Scan (Unit {0})
unfolding peeked skip_byte
expect_byte b = peeked >>= λ c. if c == b then skip_byte else fail

unfoldable pub skip_u_plus : Scan (Unit {0})
unfolding expect_byte
skip_u_plus = peeked >>= λ c. if c == b'U' then skip_byte >> expect_byte b'+' else pure tt

abbrev pub hex_number : Str → ℕ
hex_number digits = foldl (λ value d. shift_in 32 4 value (hex_value d)) 0 digits

-- One to eight digits of a character, and the brace behind them.
unfoldable pub close_unicode_escape : Str → Scan StringEscape
unfolding expect_byte hex_value
close_unicode_escape digits =
    if length digits == 0 || ltb 8 (length digits) || not (is_scalar (hex_number digits))
    then fail
    else (expect_byte b'}' >> pure (char (hex_number digits)))

unfoldable pub parse_string_unicode_escape : Scan StringEscape
unfolding expect_byte skip_u_plus bytes_while close_unicode_escape
parse_string_unicode_escape = do
  expect_byte b'{'
  skip_u_plus
  digits ← bytes_while is_ascii_hexdigit
  close_unicode_escape digits

-- The arms of the match on the byte behind the backslash.
unfoldable pub escape_of : ℕ → Scan StringEscape
unfolding skip_byte parse_string_hex_escape parse_string_octal_escape parse_string_unicode_escape
escape_of b =
    if b == b'0'
    then skip_byte >> pure (byte 0)
    else if b == b'a'
    then skip_byte >> pure (byte 0x07)
    else if b == b'b'
    then skip_byte >> pure (byte 0x08)
    else if b == b't'
    then skip_byte >> pure (byte 9)
    else if b == b'n'
    then skip_byte >> pure (byte 10)
    else if b == b'v'
    then skip_byte >> pure (byte 0x0b)
    else if b == b'f'
    then skip_byte >> pure (byte 0x0c)
    else if b == b'r'
    then skip_byte >> pure (byte 13)
    else if b == b'\\'
    then skip_byte >> pure (byte b'\\')
    else if b == 39
    then skip_byte >> pure (byte 39)
    else if b == b'"'
    then skip_byte >> pure (char b'"')
    else if b == b'x'
    then skip_byte >> parse_string_hex_escape
    else if b == b'o'
    then skip_byte >> parse_string_octal_escape
    else if b == b'u'
    then skip_byte >> parse_string_unicode_escape
    else fail

unfoldable pub parse_string_escape : Scan StringEscape
unfolding peeked escape_of
parse_string_escape = peeked >>= escape_of

-- The UTF-8 bytes of a character.
unfoldable pub encode_utf8 : ℕ → Str
encode_utf8 n =
    if ltb n 0x80
    then n ∷ []
    else if ltb n 0x800
    then (192 + n / 64) ∷ (128 + n % 64) ∷ []
    else if ltb n 0x10000
    then (224 + n / 4096) ∷ (128 + n / 64 % 64) ∷ (128 + n % 64) ∷ []
    else (240 + n / 262144) ∷ (128 + n / 4096 % 64) ∷ (128 + n / 64 % 64) ∷ (128 + n % 64) ∷ []
