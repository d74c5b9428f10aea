-- ===== src/Lexer/Scan.antt =====
-- The tokens of lex.rs, one at a time. The asserts of the source on the first byte hold where
-- `parse_next_token` calls the parts.
use nitrate.Prelude.{
  ℕ, zero, suc, Bool, false, ◌&&◌, ◌||◌, not, Option, none, some, [], ◌∷◌, ◌++◌, leb, ◌==◌,
  if◌then◌else◌, length,
}
use nitrate.Mangle.Bytes.{Str, is_utf8, is_ascii_digit, is_ascii_alphabetic}
use nitrate.Lexer.Token.{
  Token, CommentKind, single_line, multi_line, name, string, bstring, comment, slash, eof,
}
use nitrate.Lexer.Words.{keyword, single_byte}
use nitrate.Lexer.Cursor.{
  LexPos, Cursor, Scan, pure, fail, ◌>>=◌, ◌>>◌, advance_pos, advance, peek_byte, peeked, skip_byte,
  bytes_while,
}
use nitrate.Lexer.Escape.{StringEscape, char, byte, encode_utf8, parse_string_escape}
use nitrate.Lexer.Number.{parse_number}

-- `starts_with` of the gear with its variation selector.
unfoldable pub is_reserved : Str → Bool
is_reserved (a ∷ b ∷ c ∷ d ∷ e ∷ f ∷ _) =
    a == 226 && b == 154 && c == 153 && d == 239 && e == 184 && f == 143
is_reserved _ = false

abbrev pub is_identifier_byte : ℕ → Bool
is_identifier_byte b = is_ascii_alphabetic b || is_ascii_digit b || b == b'_' || leb 128 b

abbrev pub is_identifier_start : ℕ → Bool
is_identifier_start b = is_ascii_alphabetic b || b == b'_' || leb 128 b

-- One `\r` at the end is left out.
unfoldable pub trim_return : Str → Str
trim_return [] = []
trim_return (b ∷ []) = if b == 13 then [] else b ∷ []
trim_return (b ∷ c ∷ s) = b ∷ trim_return (c ∷ s)

abbrev pub escape_bytes : StringEscape → Str
escape_bytes (char n) = encode_utf8 n
escape_bytes (byte b) = b ∷ []

abbrev pub begin_storage : Str → Str → Str
begin_storage buffer [] = buffer
begin_storage buffer (b ∷ storage) = b ∷ storage

-- A byte that stands for itself is part of the slice as long as nothing is stored.
abbrev pub push_slice : ℕ → Str → Str → Str
push_slice b buffer [] = buffer ++ b ∷ []
push_slice b buffer (_ ∷ _) = buffer

abbrev pub push_stored : ℕ → Str → Str
push_stored b [] = []
push_stored b (c ∷ storage) = (c ∷ storage) ++ b ∷ []

abbrev pub is_not_newline : ℕ → Bool
is_not_newline b = not (b == b'\n')

abbrev pub starts_slash : Str → Bool
starts_slash [] = false
starts_slash (b ∷ _) = b == b'/'

abbrev pub prepended : ℕ → Option Str × Cursor → Option Str × Cursor
prepended b (none, c) = (none, c)
prepended b (some bytes, c) = (some (b ∷ bytes), c)

-- The bytes of a comment up to its end.
unfoldable pub read_block : Str → LexPos → Option Str × Cursor
unfolding advance_pos
read_block [] pos = (none, record { input = []; pos = pos })
read_block (b ∷ s) pos =
    let after = advance_pos b pos in
    let rest = read_block s after in
    if b == b'*' && starts_slash s
    then (some (b'*' ∷ b'/' ∷ []), advance (record { input = s; pos = after }))
    else prepended b rest

unfoldable pub block : Scan Str
unfolding read_block
block c = read_block c.input c.pos

module _ {F : Type 0} where
  unfoldable pub to_name : Str → Scan (Token F)
  unfolding is_utf8 is_reserved
  to_name identifier =
      if is_utf8 identifier && not (is_reserved identifier) then pure (name identifier) else fail

  unfoldable pub parse_atypical_identifier : Scan (Token F)
  unfolding skip_byte bytes_while to_name peeked
  parse_atypical_identifier = do
    skip_byte
    identifier ← bytes_while (λ b. not (b == b'`'))
    b ← peeked
    if b == b'`' then skip_byte >> to_name identifier else fail

  unfoldable pub word : Option (Token F) → Str → Scan (Token F)
  unfolding to_name
  word (some token) identifier = pure token
  word none identifier = to_name identifier

  unfoldable pub parse_typical_identifier : Scan (Token F)
  unfolding bytes_while word keyword
  parse_typical_identifier =
      bytes_while is_identifier_byte >>= λ identifier. word (keyword identifier) identifier

  -- A string if it is UTF-8, and bytes otherwise.
  unfoldable pub string_or_bytes : Str → Token F
  unfolding is_utf8
  string_or_bytes bytes = if is_utf8 bytes then string bytes else bstring bytes

  unfoldable pub finish_string : Str → Str → Token F
  unfolding string_or_bytes
  finish_string buffer [] = string_or_bytes buffer
  finish_string buffer (b ∷ storage) = string_or_bytes (b ∷ storage)

  -- The slice of the source in front of the first escape, and what is stored from then on. An escape
  -- is longer than a byte, so the fuel is the rest of the source.
  unfoldable pub string_loop : ℕ → Str → Str → Scan (Token F)
  unfolding peeked skip_byte parse_string_escape encode_utf8 finish_string
  string_loop zero buffer storage = fail
  string_loop (suc f) buffer storage = peeked >>= λ b.
      if b == b'\\'
      then (skip_byte
          >> (parse_string_escape >>= λ escape.
              string_loop f buffer (begin_storage buffer storage ++ escape_bytes escape)))
      else if b == b'"'
      then skip_byte >> pure (finish_string buffer storage)
      else skip_byte >> string_loop f (push_slice b buffer storage) (push_stored b storage)

  unfoldable pub parse_string : Scan (Token F)
  unfolding string_loop advance
  parse_string c = let c' = advance c in string_loop (suc (length c'.input)) [] [] c'

  abbrev pub to_comment : CommentKind → Str → Str → Scan (Token F)
  to_comment kind checked text =
      if is_utf8 checked then pure (comment (record { text = text; kind = kind })) else fail

  unfoldable pub parse_comment : Scan (Token F)
  unfolding bytes_while trim_return is_utf8
  parse_comment = do
    bytes ← bytes_while is_not_newline
    to_comment single_line (trim_return bytes) (trim_return bytes)

  unfoldable pub parse_slash_comment : Scan (Token F)
  unfolding skip_byte bytes_while trim_return is_utf8
  parse_slash_comment = do
    skip_byte
    bytes ← bytes_while is_not_newline
    to_comment single_line (trim_return bytes) (b'/' ∷ b'/' ∷ trim_return bytes)

  unfoldable pub parse_block_comment : Scan (Token F)
  unfolding skip_byte block is_utf8
  parse_block_comment = do
    skip_byte
    bytes ← block
    to_comment multi_line (b'/' ∷ b'*' ∷ bytes) (b'/' ∷ b'*' ∷ bytes)

  -- What the byte behind the slash says.
  unfoldable pub behind_slash : Option ℕ → Scan (Token F)
  unfolding parse_slash_comment parse_block_comment
  behind_slash none = pure slash
  behind_slash (some b) =
      if b == b'/'
      then parse_slash_comment
      else if b == b'*'
      then parse_block_comment
      else pure slash

  unfoldable pub parse_slash_or_comment : Scan (Token F)
  unfolding skip_byte peek_byte behind_slash
  parse_slash_or_comment = skip_byte >> λ c. behind_slash (peek_byte c) c

  abbrev pub single_token : Option (Token F) → Scan (Token F)
  single_token none = fail
  single_token (some token) = skip_byte >> pure token

  unfoldable pub parse_single_byte : Scan (Token F)
  unfolding peeked skip_byte single_byte
  parse_single_byte = peeked >>= λ b. single_token (single_byte b)

module _ {F : Type 0} (parse_f64 : Str → Option F) where
  -- The match of `parse_next_token`.
  unfoldable pub parse_at : ℕ → Scan (Token F)
  unfolding parse_atypical_identifier parse_typical_identifier parse_number parse_string
      parse_comment parse_slash_or_comment parse_single_byte
  parse_at b =
      if b == b'`'
      then parse_atypical_identifier
      else if is_identifier_start b
      then parse_typical_identifier
      else if is_ascii_digit b
      then parse_number parse_f64
      else if b == b'"'
      then parse_string
      else if b == b'#'
      then parse_comment
      else if b == b'/'
      then parse_slash_or_comment
      else parse_single_byte

  -- `unwrap_or(Token::Eof)`.
  abbrev pub unwrap_or_eof : Option (Token F) × Cursor → Token F × Cursor
  unwrap_or_eof (some t, c) = (t, c)
  unwrap_or_eof (none, c) = (eof, c)

  abbrev pub parse_first : Option ℕ → Scan (Token F)
  parse_first none = pure eof
  parse_first (some b) = parse_at b

  -- A token, `Eof` at the end and after an error.
  unfoldable pub parse_token : Cursor → Token F × Cursor
  unfolding peek_byte parse_at
  parse_token c = unwrap_or_eof (parse_first (peek_byte c) c)
