-- ===== src/Lexer/RoundTrip/Strings.antt =====
-- The texts of `escape_bstring`, read by `parse_string`.
use mathlib.Core.List.{append_assoc, append-nil}
use nitrate.Prelude.{
  ℕ, zero, suc, ◌≤◌, ◌<◌, ◌≡◌, sym, ap, ◌∙◌, true, Option, some, [], ◌∷◌, ◌++◌, ltb, length,
  length-append, all, and_true, arith,
}
use nitrate.Mangle.Bytes.{Str}
use nitrate.Lexer.Cursor.{LexPos, peeked, skip_byte, peek_byte, advance}
use nitrate.Lexer.Scan.{parse_token, unwrap_or_eof, string_or_bytes, string_loop, parse_string}
use nitrate.Lexer.Display.{escape_byte, escape_bytes_of, escape_bstring}
use nitrate.Lexer.Reads.{advance_all, advance_all-append}
use nitrate.Lexer.RoundTrip.Bytes.{text, finish_string-text, byte_read}

-- The loop has more fuel than there are bytes.
escape_byte-cons : (b : ℕ) → 1 ≤ length (escape_byte b)
unfolding escape_byte
escape_byte-cons b = ground arith

fits : (s rest : Str) → length s ≤ length (escape_bytes_of s ++ b'"' ∷ rest)
unfolding escape_bytes_of
fits [] rest = omega arith
fits (b ∷ s) rest =
    let split = length-append (escape_byte b) (escape_bytes_of s) in
    let whole = length-append (escape_byte b ++ escape_bytes_of s) (b'"' ∷ rest) in
    let later = length-append (escape_bytes_of s) (b'"' ∷ rest) in
    omega (arith, escape_byte-cons b, split, whole, later, fits s rest)

module _ (F : Type 0) where
  -- The closing quote.
  closes :
      (f : ℕ) (buffer storage rest : Str) (pos : LexPos)
      → string_loop {F = F} (suc f) buffer storage (record { input = b'"' ∷ rest; pos = pos }) ≡ (
        some (string_or_bytes (text buffer storage)),
        record { input = rest; pos = advance_all (b'"' ∷ []) pos },
      )
  unfolding string_loop peeked skip_byte peek_byte advance
  closes f buffer storage rest pos =
      ap (λ t. (some t, record { input = rest; pos = advance_all (b'"' ∷ []) pos }))
        (finish_string-text buffer storage)

  loop_reads :
      (s : Str) (f : ℕ) (buffer storage rest : Str) (pos : LexPos)
      → all (λ b. ltb b 256) s ≡ true
      → length s < f
      → string_loop {F = F} f buffer storage
          (record { input = escape_bytes_of s ++ b'"' ∷ rest; pos = pos })
        ≡ (
          some (string_or_bytes (text buffer storage ++ s)),
          record { input = rest; pos = advance_all (escape_bytes_of s ++ b'"' ∷ []) pos },
        )
  unfolding escape_bytes_of
  loop_reads s zero buffer storage rest pos h l = absurd (omega arith)
  loop_reads [] (suc f) buffer storage rest pos h l =
      closes f buffer storage rest pos
      ∙ ap
          (λ t.
            (some (string_or_bytes t), record { input = rest; pos = advance_all (b'"' ∷ []) pos }))
          (sym (append-nil (text buffer storage)))
  loop_reads (b ∷ s) (suc f) buffer storage rest pos h l =
      let (low, bytes) = and_true (ltb b 256) (all (λ b. ltb b 256) s) h in
      let r =
        byte_read F b (ground (arith, low)) f buffer storage (escape_bytes_of s ++ b'"' ∷ rest)
          pos in
      let before = advance_all (escape_byte b) pos in
      let split = append_assoc (escape_byte b) (escape_bytes_of s) (b'"' ∷ rest) in
      let value = ap (λ t. t ++ s) r.adds ∙ append_assoc (text buffer storage) (b ∷ []) s in
      let place =
        sym (advance_all-append (escape_byte b) (escape_bytes_of s ++ b'"' ∷ []) pos)
        ∙ ap (λ t. advance_all t pos)
            (sym (append_assoc (escape_byte b) (escape_bytes_of s) (b'"' ∷ []))) in
      ap (λ i. string_loop (suc f) buffer storage (record { input = i; pos = pos })) split
      ∙ r.runs
      ∙ loop_reads s f r.slice r.stored rest before bytes (omega (arith, l))
      ∙ ap
          (λ t. (
            some (string_or_bytes t),
            record { input = rest; pos = advance_all (escape_bytes_of s ++ b'"' ∷ []) before },
          ))
          value
      ∙ ap
          (λ p. (
            some (string_or_bytes (text buffer storage ++ b ∷ s)),
            record { input = rest; pos = p },
          ))
          place

  parse_string-escape_bstring :
      (s rest : Str) (pos : LexPos)
      → all (λ b. ltb b 256) s ≡ true
      → parse_string {F = F} (record { input = escape_bstring s true ++ rest; pos = pos }) ≡ (
        some (string_or_bytes s),
        record { input = rest; pos = advance_all (escape_bstring s true) pos },
      )
  unfolding parse_string advance escape_bstring
  parse_string-escape_bstring s rest pos h =
      let split = append_assoc (escape_bytes_of s) (b'"' ∷ []) rest in
      ap
        (λ i.
          string_loop (suc (length i)) [] []
            (record { input = i; pos = advance_all (b'"' ∷ []) pos }))
        split
      ∙ loop_reads s (suc (length (escape_bytes_of s ++ b'"' ∷ rest))) [] [] rest
          (advance_all (b'"' ∷ []) pos) h (omega (arith, fits s rest))

  -- What `escape_bstring` prints in quotes for some bytes is read as one string of those bytes, as text
  -- if they are UTF-8, and the lexer goes on behind the closing quote.
  pub parse_token-escape_bstring :
      (parse_f64 : Str → Option F) (s rest : Str) (pos : LexPos)
      → all (λ b. ltb b 256) s ≡ true
      → parse_token parse_f64 (record { input = escape_bstring s true ++ rest; pos = pos }) ≡ (
        string_or_bytes s,
        record { input = rest; pos = advance_all (escape_bstring s true) pos },
      )
  unfolding parse_token peek_byte escape_bstring
  parse_token-escape_bstring parse_f64 s rest pos h =
      ap (unwrap_or_eof parse_f64) (parse_string-escape_bstring s rest pos h)
