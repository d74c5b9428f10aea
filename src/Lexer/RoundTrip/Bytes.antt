-- ===== src/Lexer/RoundTrip/Bytes.antt =====
-- A byte of `escape_bstring`, read by the loop of `parse_string`.
use mathlib.Core.List.{foldl}
use nitrate.Prelude.{
  ℕ, suc, ◌/◌, ◌%◌, ◌<◌, ◌≡◌, refl, ap, subst, ◌∙◌, true, false, ◌&&◌, Option, none, some, [], ◌∷◌,
  ◌++◌, leb, ◌==◌, Bool-cases, inl, inr, arith,
}
use nitrate.Mangle.Bytes.{Str}
use nitrate.Mangle.Hex.{hex_digit}
use nitrate.Lexer.Token.{Token}
use nitrate.Lexer.Cursor.{LexPos, Cursor, peeked, skip_byte, peek_byte, advance}
use nitrate.Lexer.Escape.{
  StringEscape, byte, shift_in, parse_string_escape, hex_value, is_ascii_hexdigit, escape_of,
  parse_string_hex_escape, encode_utf8,
}
use nitrate.Lexer.Scan.{
  escape_bytes, string_or_bytes, finish_string, string_loop, begin_storage, push_slice, push_stored,
}
use nitrate.Lexer.RoundTrip.Digits.{read_digits-all}
use nitrate.Lexer.Display.{escape_byte}
use nitrate.Lexer.Reads.{advance_all}

-- What a string has so far: the slice of the source, or what is stored.
abbrev pub text : Str → Str → Str
text buffer [] = buffer
text buffer (b ∷ storage) = b ∷ storage

begin_storage-text : (buffer storage : Str) → begin_storage buffer storage ≡ text buffer storage
begin_storage-text buffer [] = refl
begin_storage-text buffer (b ∷ storage) = refl

text-stored : (buffer s : Str) (b : ℕ) → text buffer (s ++ b ∷ []) ≡ s ++ b ∷ []
text-stored buffer [] b = refl
text-stored buffer (c ∷ s) b = refl

text-push :
    (buffer storage : Str) (b : ℕ)
    → text (push_slice b buffer storage) (push_stored b storage) ≡ text buffer storage ++ b ∷ []
text-push buffer [] b = refl
text-push buffer (c ∷ storage) b = refl

pub finish_string-text :
    {F : Type 0} (buffer storage : Str)
    → finish_string {F = F} buffer storage ≡ string_or_bytes (text buffer storage)
unfolding finish_string
finish_string-text buffer [] = refl
finish_string-text buffer (b ∷ storage) = refl

hex_value-hex_digit : (n : ℕ) → n < 16 → hex_value (hex_digit n) ≡ n
unfolding hex_value hex_digit
hex_value-hex_digit n h = ground arith

hex_digit-is_hex : (n : ℕ) → n < 16 → is_ascii_hexdigit (hex_digit n) ≡ true
unfolding hex_digit
hex_digit-is_hex n h = ground arith

hex_escape :
    (b : ℕ) (rest : Str) (pos : LexPos)
    → b < 256
    → parse_string_hex_escape
        (record { input = hex_digit (b / 16) ∷ hex_digit (b % 16) ∷ rest; pos = pos })
      ≡ (
        some (byte b),
        record {
          input = rest;
          pos = advance_all (hex_digit (b / 16) ∷ hex_digit (b % 16) ∷ []) pos;
        },
      )
unfolding parse_string_hex_escape
hex_escape b rest pos h =
    let high = hex_digit (b / 16) in
    let low = hex_digit (b % 16) in
    let value : shift_in 8 4 (shift_in 8 4 0 (hex_value high)) (hex_value low) ≡ b =
      rw (hex_value-hex_digit (b / 16) (omega arith), hex_value-hex_digit (b % 16) (omega arith))
        (omega (arith, h)) in
    let reads = read_digits-all is_ascii_hexdigit (high ∷ low ∷ []) rest pos (
      rw (hex_digit-is_hex (b / 16) (omega arith), hex_digit-is_hex (b % 16) (omega arith)) refl) in
    ap
      (λ (r : Option Str × Cursor). elim r.0 as (λ _. Option StringEscape × Cursor) [
        | some bs ↦ (some (byte (foldl (λ value d. shift_in 8 4 value (hex_value d)) 0 bs)), r.1)
        | none ↦ (none, r.1)
      ])
      reads
    ∙ ap (λ n. (some (byte n), record { input = rest; pos = advance_all (high ∷ low ∷ []) pos }))
        value

-- A byte without an escape of its own.
abbrev IsOther : ℕ → Type 0
IsOther b =
    ((b == 0) ≡ false)
    × ((b == b'\\') ≡ false)
    × ((b == b'"') ≡ false)
    × ((b == 7) ≡ false)
    × ((b == 8) ≡ false)
    × ((b == 9) ≡ false)
    × ((b == 10) ≡ false)
    × ((b == 0x0b) ≡ false)
    × ((b == 0x0c) ≡ false)
    × ((b == 13) ≡ false)

printed : (b : ℕ) → (leb 0x20 b && leb b 0x7E) ≡ true → IsOther b → escape_byte b ≡ b ∷ []
unfolding escape_byte
printed b h (n0, n1, n2, n3, n4, n5, n6, n7, n8, n9) =
    rw (n0, n1, n2, n3, n4, n5, n6, n7, n8, n9, h) refl

hidden :
    (b : ℕ)
    → (leb 0x20 b && leb b 0x7E) ≡ false
    → IsOther b
    → escape_byte b ≡ b'\\' ∷ b'x' ∷ hex_digit (b / 16) ∷ hex_digit (b % 16) ∷ []
unfolding escape_byte
hidden b h (n0, n1, n2, n3, n4, n5, n6, n7, n8, n9) =
    rw (n0, n1, n2, n3, n4, n5, n6, n7, n8, n9, h) refl

module _ (F : Type 0) where
  -- A round of the loop reads what is printed for a byte, and adds the byte.
  pub record IsRound (b f : ℕ) (buffer storage rest : Str) (pos : LexPos) : Type 0 where
    pub slice : Str
    pub stored : Str
    pub runs :
        string_loop {F = F}
          (suc f)
          buffer
          storage
          (record { input = escape_byte b ++ rest; pos = pos })
        ≡ string_loop f slice stored
            (record { input = rest; pos = advance_all (escape_byte b) pos })
    pub adds : text slice stored ≡ text buffer storage ++ b ∷ []

  abbrev pub IsRead : ℕ → Type 0
  IsRead b =
      (f : ℕ) (buffer storage rest : Str) (pos : LexPos) → IsRound b f buffer storage rest pos

  -- An escape puts its byte behind what is stored.
  escaped :
      (b f : ℕ) (buffer storage rest : Str) (pos : LexPos)
      → string_loop {F = F}
          (suc f)
          buffer
          storage
          (record { input = escape_byte b ++ rest; pos = pos })
        ≡ string_loop f buffer
            (begin_storage buffer storage ++ b ∷ [])
            (record { input = rest; pos = advance_all (escape_byte b) pos })
      → IsRound b f buffer storage rest pos
  escaped b f buffer storage rest pos e = record {
    slice = buffer;
    stored = begin_storage buffer storage ++ b ∷ [];
    runs = e;
    adds =
        text-stored buffer (begin_storage buffer storage) b
        ∙ ap (λ s. s ++ b ∷ []) (begin_storage-text buffer storage);
  }

  unless : (b c : ℕ) → IsRead c → ((b == c) ≡ false → IsRead b) → IsRead b
  unless b c p q = elim (Bool-cases (b == c)) [
    | inl e ↦ let is : c ≡ b = ground (arith, e) in subst IsRead is p
    | inr n ↦ q n
  ]

  nul_read : IsRead 0
  unfolding string_loop parse_string_escape escape_of peeked skip_byte peek_byte advance escape_byte
      encode_utf8
  nul_read f buffer storage rest pos = escaped 0 f buffer storage rest pos refl

  backslash_read : IsRead b'\\'
  unfolding string_loop parse_string_escape escape_of peeked skip_byte peek_byte advance escape_byte
      encode_utf8
  backslash_read f buffer storage rest pos = escaped b'\\' f buffer storage rest pos refl

  quote_read : IsRead b'"'
  unfolding string_loop parse_string_escape escape_of peeked skip_byte peek_byte advance escape_byte
      encode_utf8
  quote_read f buffer storage rest pos = escaped b'"' f buffer storage rest pos refl

  bell_read : IsRead 7
  unfolding string_loop parse_string_escape escape_of peeked skip_byte peek_byte advance escape_byte
      encode_utf8
  bell_read f buffer storage rest pos = escaped 7 f buffer storage rest pos refl

  backspace_read : IsRead 8
  unfolding string_loop parse_string_escape escape_of peeked skip_byte peek_byte advance escape_byte
      encode_utf8
  backspace_read f buffer storage rest pos = escaped 8 f buffer storage rest pos refl

  tab_read : IsRead 9
  unfolding string_loop parse_string_escape escape_of peeked skip_byte peek_byte advance escape_byte
      encode_utf8
  tab_read f buffer storage rest pos = escaped 9 f buffer storage rest pos refl

  newline_read : IsRead 10
  unfolding string_loop parse_string_escape escape_of peeked skip_byte peek_byte advance escape_byte
      encode_utf8
  newline_read f buffer storage rest pos = escaped 10 f buffer storage rest pos refl

  vertical_read : IsRead 0x0b
  unfolding string_loop parse_string_escape escape_of peeked skip_byte peek_byte advance escape_byte
      encode_utf8
  vertical_read f buffer storage rest pos = escaped 0x0b f buffer storage rest pos refl

  feed_read : IsRead 0x0c
  unfolding string_loop parse_string_escape escape_of peeked skip_byte peek_byte advance escape_byte
      encode_utf8
  feed_read f buffer storage rest pos = escaped 0x0c f buffer storage rest pos refl

  return_read : IsRead 13
  unfolding string_loop parse_string_escape escape_of peeked skip_byte peek_byte advance escape_byte
      encode_utf8
  return_read f buffer storage rest pos = escaped 13 f buffer storage rest pos refl

  -- The bytes that stand for themselves.
  plain_read :
      (b : ℕ) → escape_byte b ≡ b ∷ [] → (b == b'\\') ≡ false → (b == b'"') ≡ false → IsRead b
  unfolding string_loop parse_string_escape escape_of peeked skip_byte peek_byte advance escape_byte
      encode_utf8
  plain_read b e slash quote f buffer storage rest pos = record {
    slice = push_slice b buffer storage;
    stored = push_stored b storage;
    runs = rw (e, slash, quote) refl;
    adds = text-push buffer storage b;
  }

  -- All others are two digits.
  digits_read :
      (b : ℕ)
      → b < 256
      → escape_byte b ≡ b'\\' ∷ b'x' ∷ hex_digit (b / 16) ∷ hex_digit (b % 16) ∷ []
      → IsRead b
  unfolding string_loop parse_string_escape escape_of peeked skip_byte peek_byte advance escape_byte
      encode_utf8
  digits_read b h e f buffer storage rest pos = escaped b f buffer storage rest pos (
      rw e (
        ap
          (λ (r : Option StringEscape × Cursor). elim r.0 as (λ _. Option (Token F) × Cursor) [
            | some escape ↦
                string_loop f buffer (begin_storage buffer storage ++ escape_bytes escape) r.1
            | none ↦ (none, r.1)
          ])
          (hex_escape b rest (advance_all (b'\\' ∷ b'x' ∷ []) pos) h)))

  pub byte_read : (b : ℕ) → b < 256 → IsRead b
  byte_read b h = unless b 0 nul_read λ n0. unless b b'\\' backslash_read λ n1.
      unless b b'"' quote_read λ n2. unless b 7 bell_read λ n3. unless b 8 backspace_read λ n4.
        unless b 9 tab_read λ n5. unless b 10 newline_read λ n6. unless b 0x0b vertical_read λ n7.
          unless b 0x0c feed_read λ n8. unless b 13 return_read λ n9.
            elim (Bool-cases (leb 0x20 b && leb b 0x7E)) [
              | inl prints ↦
                  plain_read b (printed b prints (n0, n1, n2, n3, n4, n5, n6, n7, n8, n9)) n1 n2
              | inr hides ↦
                  digits_read b h (hidden b hides (n0, n1, n2, n3, n4, n5, n6, n7, n8, n9))
            ]
