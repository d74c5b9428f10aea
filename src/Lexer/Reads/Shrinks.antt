-- ===== src/Lexer/Reads/Shrinks.antt =====
-- A token that is not an error takes a byte of the input at least: the lexer does not stand still.
use nitrate.Prelude.{
  ℕ, suc, ◌≤◌, ◌<◌, ◌≡◌, refl, ap, ◌∙◌, ◌⊎◌, inl, inr, Bool, true, false, ◌||◌, not, Option, none,
  some, [], ◌∷◌, ◌==◌, if◌then◌else◌, length, length-append, arith,
}
use nitrate.Mangle.Bytes.{Str, is_ascii_digit, is_ascii_alphabetic}
use nitrate.Lexer.Token.{Token, CommentKind}
use nitrate.Lexer.Words.{keyword, single_byte}
use nitrate.Lexer.Cursor.{
  LexPos, Cursor, Scan, ◌>>=◌, advance_pos, advance, peek_byte, read_from, read_while, peeked,
  skip_byte, bytes_while,
}
use nitrate.Lexer.Number
use nitrate.Lexer.Scan
use nitrate.Lexer.Stream.{is_end}
use nitrate.Lexer.Reads.{
  Reads, IsScan, pure-IsScan, fail-IsScan, if-IsScan, bind-IsScan, then-IsScan, peeked-IsScan,
  skip_byte-IsScan, bytes_while-IsScan,
}
use nitrate.Lexer.Reads.Tokens.{
  to_name-IsScan, word-IsScan, string_loop-IsScan, to_comment-IsScan, behind_slash-IsScan,
  number_by-IsScan,
}

pub Reads-length : {c d : Cursor} → Reads c d → length d.input ≤ length c.input
Reads-length {c} {d} r =
    let front = ap length r.front ∙ length-append r.bytes d.input in omega (arith, front)

-- A cursor that has a byte.
abbrev at_byte : ℕ → Str → LexPos → Cursor
at_byte b s pos = record { input = b ∷ s; pos = pos }

record IsShrinking {A : Type 0} (m : Scan A) (b : ℕ) : Type 0 where
  shrinks : (s : Str) (pos : LexPos) → length (m (at_byte b s pos)).1.input < suc (length s)

-- An error, or a byte less.
record IsProgress {A : Type 0} (m : Scan A) (b : ℕ) : Type 0 where
  on :
      (s : Str) (pos : LexPos)
      → ((m (at_byte b s pos)).0 ≡ none) ⊎ (length (m (at_byte b s pos)).1.input < suc (length s))

skip_byte-IsShrinking : (b : ℕ) → IsShrinking skip_byte b
unfolding skip_byte advance
skip_byte-IsShrinking b = record { shrinks = λ s pos. omega arith }

bytes_while-IsShrinking : (p : ℕ → Bool) (b : ℕ) → p b ≡ true → IsShrinking (bytes_while p) b
unfolding bytes_while read_while read_from
bytes_while-IsShrinking p b goes = record {
  shrinks = λ s pos.
      let rest =
        Reads-length
          ((bytes_while-IsScan p).reads (record { input = s; pos = advance_pos b pos })) in
      rw goes (omega (arith, rest));
}

module _ {A B : Type 0} where
  bind-IsShrinking :
      {m : Scan A} {f : A → Scan B} {b : ℕ}
      → IsShrinking m b
      → ((a : A) → IsScan (f a))
      → IsProgress (m >>= f) b
  bind-IsShrinking {m} {f} {b} p q = record {
    on = λ s pos. inr (on_result (m (at_byte b s pos)).0 (m (at_byte b s pos)).1 (p.shrinks s pos));
  }
    where
      on_result :
          (r : Option A) (c : Cursor) {n : ℕ}
          → length c.input < n
          → length
              (elim r as (λ _. Option B × Cursor) [ some a ↦ f a c | none ↦ (none, c) ]).1.input
            < n
      on_result none c h = h
      on_result (some a) c {n} h = let r = Reads-length ((q a).reads c) in omega (arith, r, h)

module _ {A : Type 0} where
  if-IsProgress :
      {m n : Scan A} {b : ℕ} (t : Bool)
      → (t ≡ true → IsProgress m b)
      → IsProgress n b
      → IsProgress (if t then m else n) b
  if-IsProgress true p q = p refl
  if-IsProgress false p q = q

module _ {F : Type 0} where
  single_token-IsProgress : (o : Option (Token F)) (b : ℕ) → IsProgress (Scan.single_token o) b
  single_token-IsProgress none b = record { on = λ s pos. inl refl }
  single_token-IsProgress (some t) b =
      bind-IsShrinking (skip_byte-IsShrinking b) (λ _. pure-IsScan t)

  parse_single_byte-IsProgress : (b : ℕ) → IsProgress (Scan.parse_single_byte {F = F}) b
  unfolding Scan.parse_single_byte peeked peek_byte
  parse_single_byte-IsProgress b = record { on = (single_token-IsProgress (single_byte b) b).on }

  parse_string-IsProgress : (b : ℕ) → IsProgress (Scan.parse_string {F = F}) b
  unfolding Scan.parse_string advance
  parse_string-IsProgress b = record {
    on = λ s pos.
        let r = Reads-length (
          (string_loop-IsScan {F = F} (suc (length s)) [] []).reads
            (record { input = s; pos = advance_pos b pos })) in
        inr (omega (arith, r));
  }

identifier_start_byte :
    (b : ℕ) → Scan.is_identifier_start b ≡ true → Scan.is_identifier_byte b ≡ true
identifier_start_byte b h = wider (is_ascii_alphabetic b) (is_ascii_digit b) (b == b'_') _ h
  where
    wider : (a d u r : Bool) → (a || u || r) ≡ true → (a || d || u || r) ≡ true
    wider true d u r e = refl
    wider false true u r e = refl
    wider false false u r e = e

hash : (b : ℕ) → (b == b'#') ≡ true → Scan.is_not_newline b ≡ true
hash b h = ground (arith, h)

module _ {F : Type 0} (parse_f64 : Str → Option F) where
  parse_at-IsProgress : (b : ℕ) → IsProgress (Scan.parse_at parse_f64 b) b
  unfolding Scan.parse_at Scan.parse_atypical_identifier Scan.parse_typical_identifier
      Number.parse_number Scan.parse_comment Scan.parse_slash_or_comment
  parse_at-IsProgress b =
      if-IsProgress (b == b'`')
        (λ _. bind-IsShrinking (skip_byte-IsShrinking b) λ _.
          bind-IsScan (bytes_while-IsScan (λ c. not (c == b'`'))) λ s.
            bind-IsScan peeked-IsScan λ c.
              if-IsScan (c == b'`') (then-IsScan skip_byte-IsScan (to_name-IsScan s)) fail-IsScan)
        (if-IsProgress (Scan.is_identifier_start b)
          (λ h.
            bind-IsShrinking (bytes_while-IsShrinking _ b (identifier_start_byte b h))
              λ s. word-IsScan (keyword s) s)
          (if-IsProgress (is_ascii_digit b)
            (λ h.
              bind-IsShrinking
                {f = λ s c. Number.number_by parse_f64 s (Number.prefix_of s c.input) c}
                (bytes_while-IsShrinking _ b (rw h refl))
                λ s. record {
                  reads = λ c. (number_by-IsScan parse_f64 s (Number.prefix_of s c.input)).reads c;
                })
            (if-IsProgress (b == b'"') (λ _. parse_string-IsProgress b)
              (if-IsProgress (b == b'#')
                (λ h. bind-IsShrinking (bytes_while-IsShrinking _ b (hash b h)) λ s.
                  to_comment-IsScan CommentKind.single_line (Scan.trim_return s)
                    (Scan.trim_return s))
                (if-IsProgress (b == b'/')
                  (λ _.
                    bind-IsShrinking {f = λ _ c. Scan.behind_slash (peek_byte c) c}
                      (skip_byte-IsShrinking b)
                      λ _. record { reads = λ c. (behind_slash-IsScan (peek_byte c)).reads c })
                  (parse_single_byte-IsProgress b))))))

  ends_or_shrinks :
      (s : Str) (r : Option (Token F) × Cursor)
      → (r.0 ≡ none) ⊎ (length r.1.input < length s)
      → is_end (Scan.unwrap_or_eof parse_f64 r).0 ≡ false
      → length (Scan.unwrap_or_eof parse_f64 r).1.input < length s
  ends_or_shrinks s (none, c) h e = absurd (cc e)
  ends_or_shrinks s (some t, c) (inl h) e = absurd (cc h)
  ends_or_shrinks s (some t, c) (inr h) e = h

  -- Every token but the last leaves less of the input.
  pub parse_token_shrinks :
      (c : Cursor)
      → is_end (Scan.parse_token parse_f64 c).0 ≡ false
      → length (Scan.parse_token parse_f64 c).1.input < length c.input
  unfolding Scan.parse_token peek_byte
  parse_token_shrinks c e = from c.input c.pos e
    where
      from :
          (s : Str) (pos : LexPos)
          → is_end (Scan.parse_token parse_f64 (record { input = s; pos = pos })).0 ≡ false
          → length (Scan.parse_token parse_f64 (record { input = s; pos = pos })).1.input < length s
      from [] pos h = absurd (cc h)
      from (b ∷ s) pos h =
          ends_or_shrinks (b ∷ s) (Scan.parse_at parse_f64 b (at_byte b s pos))
            ((parse_at-IsProgress b).on s pos) h
