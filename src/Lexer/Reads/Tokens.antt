-- ===== src/Lexer/Reads/Tokens.antt =====
-- The tokens read on, and so do the parts that they are made of.
use mathlib.Core.Option
use nitrate.Prelude.{
  ℕ, zero, suc, ◌≡◌, refl, ◌⊎◌, sym, ap, subst, Bool, true, false, ◌&&◌, Option, none, some, [],
  ◌∷◌, ◌++◌, ◌==◌, not, if◌then◌else◌, Bool-cases, inl, inr,
}
use nitrate.Prelude as P
use nitrate.Mangle.Bytes.{Str, is_utf8}
use nitrate.Lexer.Token.{Token, float, CommentKind, IntegerKind}
use nitrate.Lexer.Words.{keyword, single_byte}
use nitrate.Lexer.Cursor.{LexPos, Cursor, Scan, lifted, or_else, advance_pos, advance, peek_byte}
use nitrate.Lexer.Number
use nitrate.Lexer.Scan
use nitrate.Lexer.Reads.{
  Reads, Reads_refl, Reads_trans, IsScan, pure-IsScan, fail-IsScan, if-IsScan, bind-IsScan,
  then-IsScan, advance-Reads, peeked-IsScan, skip_byte-IsScan, bytes_while-IsScan,
}
use nitrate.Lexer.Reads.Parts.{parse_string_escape-IsScan}

module _ {A : Type 0} where
  lifted-IsScan : (o : Option A) → IsScan (lifted o)
  lifted-IsScan o = record { reads = Reads_refl }

  or_else-IsScan : {m n : Scan A} → IsScan m → IsScan n → IsScan (or_else m n)
  or_else-IsScan {m} {n} p q = record {
    reads = λ c. Reads_trans (p.reads c) (on_result (m c).0 (m c).1);
  }
    where
      on_result :
          (r : Option A) (c : Cursor)
          → Reads c (elim r as (λ _. Option A × Cursor) [ some a ↦ (some a, c) | none ↦ n c ]).1
      on_result none c = q.reads c
      on_result (some a) c = Reads_refl c

one_byte :
    (b : ℕ) (s : Str) (pos : LexPos)
    → Reads (record { input = b ∷ s; pos = pos }) (record { input = s; pos = advance_pos b pos })
one_byte b s pos = record { bytes = b ∷ []; front = refl; moved = refl }

prepended_cursor : (b : ℕ) (r : Option Str × Cursor) → (Scan.prepended b r).1 ≡ r.1
prepended_cursor b (none, c) = refl
prepended_cursor b (some bytes, c) = refl

read_block-Reads :
    (s : Str) (pos : LexPos) → Reads (record { input = s; pos = pos }) (Scan.read_block s pos).1
unfolding Scan.read_block
read_block-Reads [] pos = Reads_refl _
read_block-Reads (b ∷ s) pos = elim (Bool-cases (b == b'*' && Scan.starts_slash s)) [
  | inl ends ↦ rw ends (Reads_trans (one_byte b s pos) (advance-Reads _))
  | inr goes_on ↦ rw goes_on (
      subst (Reads _) (sym (prepended_cursor b (Scan.read_block s (advance_pos b pos))))
        (Reads_trans (one_byte b s pos) (read_block-Reads s (advance_pos b pos))))
]

block-IsScan : IsScan Scan.block
unfolding Scan.block
block-IsScan = record { reads = λ c. read_block-Reads c.input c.pos }

module _ {F : Type 0} where
  pub to_name-IsScan : (s : Str) → IsScan (Scan.to_name {F = F} s)
  unfolding Scan.to_name
  to_name-IsScan s = if-IsScan _ (pure-IsScan _) fail-IsScan

  pub word-IsScan : (o : Option (Token F)) (s : Str) → IsScan (Scan.word o s)
  unfolding Scan.word
  word-IsScan (some t) s = pure-IsScan t
  word-IsScan none s = to_name-IsScan s

  parse_typical_identifier-IsScan : IsScan (Scan.parse_typical_identifier {F = F})
  unfolding Scan.parse_typical_identifier
  parse_typical_identifier-IsScan =
      bind-IsScan (bytes_while-IsScan Scan.is_identifier_byte) λ s. word-IsScan (keyword s) s

  parse_atypical_identifier-IsScan : IsScan (Scan.parse_atypical_identifier {F = F})
  unfolding Scan.parse_atypical_identifier
  parse_atypical_identifier-IsScan = then-IsScan skip_byte-IsScan (
      bind-IsScan (bytes_while-IsScan (λ b. not (b == b'`'))) λ s.
        bind-IsScan peeked-IsScan
          λ b. if-IsScan (b == b'`') (then-IsScan skip_byte-IsScan (to_name-IsScan s)) fail-IsScan)

  pub string_loop-IsScan :
      (f : ℕ) (buffer storage : Str) → IsScan (Scan.string_loop {F = F} f buffer storage)
  unfolding Scan.string_loop
  string_loop-IsScan zero buffer storage = fail-IsScan
  string_loop-IsScan (suc f) buffer storage = bind-IsScan peeked-IsScan λ b.
      if-IsScan (b == b'\\')
        (then-IsScan skip_byte-IsScan
          (bind-IsScan parse_string_escape-IsScan λ escape. string_loop-IsScan f buffer _))
        (if-IsScan (b == b'"') (then-IsScan skip_byte-IsScan (pure-IsScan _)) (
          then-IsScan skip_byte-IsScan
            (string_loop-IsScan f (Scan.push_slice b buffer storage) (Scan.push_stored b storage))))

  parse_string-IsScan : IsScan (Scan.parse_string {F = F})
  unfolding Scan.parse_string
  parse_string-IsScan = record {
    reads = λ c.
        Reads_trans (advance-Reads c)
          ((string_loop-IsScan (suc (P.length (advance c).input)) [] []).reads (advance c));
  }

  pub to_comment-IsScan :
      (kind : CommentKind) (s t : Str) → IsScan (Scan.to_comment {F = F} kind s t)
  to_comment-IsScan kind s t = if-IsScan (is_utf8 s) (pure-IsScan _) fail-IsScan

  parse_comment-IsScan : IsScan (Scan.parse_comment {F = F})
  unfolding Scan.parse_comment
  parse_comment-IsScan =
      bind-IsScan (bytes_while-IsScan Scan.is_not_newline)
        λ s. to_comment-IsScan CommentKind.single_line (Scan.trim_return s) (Scan.trim_return s)

  parse_slash_comment-IsScan : IsScan (Scan.parse_slash_comment {F = F})
  unfolding Scan.parse_slash_comment
  parse_slash_comment-IsScan = then-IsScan skip_byte-IsScan (
      bind-IsScan (bytes_while-IsScan Scan.is_not_newline) λ s.
        to_comment-IsScan CommentKind.single_line (Scan.trim_return s)
          (b'/' ∷ b'/' ∷ Scan.trim_return s))

  parse_block_comment-IsScan : IsScan (Scan.parse_block_comment {F = F})
  unfolding Scan.parse_block_comment
  parse_block_comment-IsScan = then-IsScan skip_byte-IsScan (
      bind-IsScan block-IsScan
        λ s. to_comment-IsScan CommentKind.multi_line (b'/' ∷ b'*' ∷ s) (b'/' ∷ b'*' ∷ s))

  pub behind_slash-IsScan : (o : Option ℕ) → IsScan (Scan.behind_slash {F = F} o)
  unfolding Scan.behind_slash
  behind_slash-IsScan none = pure-IsScan _
  behind_slash-IsScan (some b) =
      if-IsScan (b == b'/') parse_slash_comment-IsScan
        (if-IsScan (b == b'*') parse_block_comment-IsScan (pure-IsScan _))

  parse_slash_or_comment-IsScan : IsScan (Scan.parse_slash_or_comment {F = F})
  unfolding Scan.parse_slash_or_comment
  parse_slash_or_comment-IsScan =
      then-IsScan {n = λ c. Scan.behind_slash (peek_byte c) c} skip_byte-IsScan
        (record { reads = λ c. (behind_slash-IsScan (peek_byte c)).reads c })

  single_token-IsScan : (o : Option (Token F)) → IsScan (Scan.single_token o)
  single_token-IsScan none = fail-IsScan
  single_token-IsScan (some t) = then-IsScan skip_byte-IsScan (pure-IsScan t)

  parse_single_byte-IsScan : IsScan (Scan.parse_single_byte {F = F})
  unfolding Scan.parse_single_byte
  parse_single_byte-IsScan = bind-IsScan peeked-IsScan λ b. single_token-IsScan (single_byte b)

module _ {F : Type 0} (parse_f64 : Str → Option F) where
  fraction-IsScan : (whole : Str) → IsScan (Number.fraction parse_f64 whole)
  unfolding Number.fraction
  fraction-IsScan whole = bind-IsScan (bytes_while-IsScan Number.is_digit_or_line) λ digits.
      lifted-IsScan
        (Option.map float (Number.convert_float_repr parse_f64 (whole ++ b'.' ∷ digits)))

  parse_float-IsScan : (whole : Str) → IsScan (Number.parse_float parse_f64 whole)
  unfolding Number.parse_float
  parse_float-IsScan whole = record {
    reads = λ c. from c (Bool-cases (Number.starts_fraction c.input));
  }
    where
      from :
          (c : Cursor)
          → (Number.starts_fraction c.input ≡ true) ⊎ (Number.starts_fraction c.input ≡ false)
          → Reads c (Number.parse_float parse_f64 whole c).1
      from c (inl dot) = rw dot ((then-IsScan skip_byte-IsScan (fraction-IsScan whole)).reads c)
      from c (inr none_there) = rw none_there (Reads_refl c)

  decode-IsScan : (kind : IntegerKind) (s : Str) → IsScan (Number.decode parse_f64 kind s)
  unfolding Number.decode
  decode-IsScan kind s = lifted-IsScan _

  decode_digits-IsScan :
      (kind : IntegerKind) (s : Str) → IsScan (Number.decode_digits parse_f64 kind s)
  unfolding Number.decode_digits
  decode_digits-IsScan kind [] = fail-IsScan
  decode_digits-IsScan kind (b ∷ s) = decode-IsScan kind (b ∷ s)

  pub number_by-IsScan :
      (s : Str) (o : Option IntegerKind) → IsScan (Number.number_by parse_f64 s o)
  unfolding Number.number_by Number.parse_prefixed
  number_by-IsScan s (some kind) =
      then-IsScan skip_byte-IsScan
        (bind-IsScan (bytes_while-IsScan (Number.digit_test kind)) λ t. decode_digits-IsScan kind t)
  number_by-IsScan s none = or_else-IsScan (parse_float-IsScan s) (decode-IsScan IntegerKind.dec s)

  parse_number-IsScan : IsScan (Number.parse_number parse_f64)
  unfolding Number.parse_number
  parse_number-IsScan =
      bind-IsScan {f = λ s c. Number.number_by parse_f64 s (Number.prefix_of s c.input) c}
        (bytes_while-IsScan Number.is_digit_or_line)
        λ s. record { reads = λ c. (number_by-IsScan s (Number.prefix_of s c.input)).reads c }

  parse_at-IsScan : (b : ℕ) → IsScan (Scan.parse_at parse_f64 b)
  unfolding Scan.parse_at
  parse_at-IsScan b =
      search
        (
          if-IsScan, parse_atypical_identifier-IsScan, parse_typical_identifier-IsScan,
          parse_number-IsScan, parse_string-IsScan, parse_comment-IsScan,
          parse_slash_or_comment-IsScan, parse_single_byte-IsScan,
        )
        depth 12

  unwrap_cursor : (r : Option (Token F) × Cursor) → (Scan.unwrap_or_eof parse_f64 r).1 ≡ r.1
  unwrap_cursor (none, c) = refl
  unwrap_cursor (some t, c) = refl

  parse_first-IsScan : (o : Option ℕ) → IsScan (Scan.parse_first parse_f64 o)
  parse_first-IsScan none = pure-IsScan _
  parse_first-IsScan (some b) = parse_at-IsScan b

  -- A token reads on.
  pub parse_token-Reads : (c : Cursor) → Reads c (Scan.parse_token parse_f64 c).1
  unfolding Scan.parse_token
  parse_token-Reads c =
      subst (Reads c) (sym (unwrap_cursor (Scan.parse_first parse_f64 (peek_byte c) c)))
        ((parse_first-IsScan (peek_byte c)).reads c)
