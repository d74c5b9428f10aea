-- ===== src/Lexer/Reads/Parts.antt =====
-- The parts of the lexer read on, each made of parts that do.
use nitrate.Prelude.{ℕ, zero, suc, Bool, [], ◌∷◌, ◌==◌}
use nitrate.Mangle.Bytes.{Str}
use nitrate.Lexer.Escape.{
  read_digits, parse_string_hex_escape, parse_string_octal_escape, expect_byte, skip_u_plus, char,
  is_ascii_hexdigit, hex_number, close_unicode_escape, parse_string_unicode_escape, escape_of,
  parse_string_escape,
}
use nitrate.Lexer.Reads.{
  IsScan, pure-IsScan, fail-IsScan, if-IsScan, bind-IsScan, then-IsScan, peeked-IsScan,
  skip_byte-IsScan, bytes_while-IsScan,
}

read_digits-IsScan : (n : ℕ) (p : ℕ → Bool) → IsScan (read_digits n p)
unfolding read_digits
read_digits-IsScan zero p = pure-IsScan []
read_digits-IsScan (suc n) p = bind-IsScan peeked-IsScan λ b.
    if-IsScan (p b)
      (then-IsScan skip_byte-IsScan
        (bind-IsScan (read_digits-IsScan n p) λ bs. pure-IsScan (b ∷ bs)))
      fail-IsScan

hex_escape-IsScan : IsScan parse_string_hex_escape
unfolding parse_string_hex_escape
hex_escape-IsScan = bind-IsScan (read_digits-IsScan 2 _) λ digits. pure-IsScan _

octal_escape-IsScan : IsScan parse_string_octal_escape
unfolding parse_string_octal_escape
octal_escape-IsScan = bind-IsScan (read_digits-IsScan 3 _) λ digits. pure-IsScan _

expect_byte-IsScan : (b : ℕ) → IsScan (expect_byte b)
unfolding expect_byte
expect_byte-IsScan b =
    bind-IsScan peeked-IsScan λ c. if-IsScan (c == b) skip_byte-IsScan fail-IsScan

skip_u_plus-IsScan : IsScan skip_u_plus
unfolding skip_u_plus
skip_u_plus-IsScan = bind-IsScan peeked-IsScan λ c.
    if-IsScan (c == b'U') (then-IsScan skip_byte-IsScan (expect_byte-IsScan b'+')) (pure-IsScan tt)

close_unicode_escape-IsScan : (digits : Str) → IsScan (close_unicode_escape digits)
unfolding close_unicode_escape
close_unicode_escape-IsScan digits =
    if-IsScan _ fail-IsScan
      (then-IsScan (expect_byte-IsScan b'}') (pure-IsScan (char (hex_number digits))))

unicode_escape-IsScan : IsScan parse_string_unicode_escape
unfolding parse_string_unicode_escape
unicode_escape-IsScan = then-IsScan (expect_byte-IsScan b'{') (
    then-IsScan skip_u_plus-IsScan
      (bind-IsScan (bytes_while-IsScan is_ascii_hexdigit) close_unicode_escape-IsScan))

escape_of-IsScan : (b : ℕ) → IsScan (escape_of b)
unfolding escape_of
escape_of-IsScan b =
    search
      (
        if-IsScan,
        then-IsScan skip_byte-IsScan,
        pure-IsScan,
        fail-IsScan,
        hex_escape-IsScan,
        octal_escape-IsScan,
        unicode_escape-IsScan,
      )
      depth 30

pub parse_string_escape-IsScan : IsScan parse_string_escape
unfolding parse_string_escape
parse_string_escape-IsScan = bind-IsScan peeked-IsScan escape_of-IsScan
