-- ===== src/Lexer/Calls.antt =====
-- The calls of the parser, in any order.
pub mod Peeks
pub mod Fuel
pub mod Ends
use nitrate.Prelude.{
  ◌≤◌, ℕ, ◌≡◌, refl, sym, ap, subst, ◌∙◌, Bool, true, Option, none, some, [], length, ltb,
  Bool-cases, inl, inr, arith,
}
use nitrate.Mangle.Bytes.{Str}
use nitrate.Lexer.Cursor.{LexPos}
use nitrate.Lexer.Stream.{
  AnnotatedToken, Lexer, start_of, new_lexer, set_trivia, parse_next_token, next_with, next_tok,
  peek_with, peek_tok, skip_with, skip_tok, rewind,
}
use nitrate.Lexer.Invariant.{
  IsPosition, Reads-IsAt, IsAt-IsPosition, pos_behind-IsAt, IsLexer, parsed,
}

module _ {F : Type 0} (parse_f64 : Str → Option F) where
  -- A call that changes the lexer. The others peek, or peek and skip; one goes back to a position of
  -- the source only.
  pub data Call (fileid : Option ℕ) : Lexer F → Lexer F → Type 0 where
    nexts : (l m : Lexer F) (t : AnnotatedToken F) → next_tok parse_f64 l ≡ (t, m) → Call fileid l m
    peeks : (l m : Lexer F) (t : AnnotatedToken F) → peek_tok parse_f64 l ≡ (t, m) → Call fileid l m
    skips : (l m : Lexer F) → skip_tok parse_f64 l ≡ m → Call fileid l m
    sets : (l m : Lexer F) (b : Bool) → set_trivia parse_f64 b l ≡ m → Call fileid l m
    rewinds :
        (l m : Lexer F) (pos : LexPos)
        → IsPosition l.source fileid pos
        → rewind parse_f64 pos l ≡ m
        → Call fileid l m

  pub data Calls (fileid : Option ℕ) (l : Lexer F) : Lexer F → Type 0 where
    none_yet : Calls fileid l l
    more : {m n : Lexer F} → Calls fileid l m → Call fileid m n → Calls fileid l n

  -- The token's start and end are positions of the source.
  abbrev pub IsPlaced : Str → Option ℕ → AnnotatedToken F → Type 0
  IsPlaced source fileid t = IsPosition source fileid t.start × IsPosition source fileid t.end

  -- What is read has a place, and the lexer reads on behind it.
  parse_next_token-IsPosition :
      (fileid : Option ℕ) (l : Lexer F)
      → IsLexer fileid l
      → let (t, m) = parse_next_token parse_f64 l in
        IsPosition l.source fileid t.start
        × (t.end ≡ m.internal_getc_pos)
        × IsPosition l.source fileid m.internal_getc_pos
  unfolding parse_next_token
  parse_next_token-IsPosition fileid l i =
      let p = parsed parse_f64 l in
      let here = pos_behind-IsAt i.internal in
      let first = Reads-IsAt i.fits p.skipped here in
      let after = Reads-IsAt i.fits p.taken first in
      (
        subst (IsPosition l.source fileid) (sym p.start) (IsAt-IsPosition first),
        p.end,
        IsAt-IsPosition after,
      )

  next_with-IsLexer :
      (fileid : Option ℕ) (o : Option (AnnotatedToken F)) (l : Lexer F)
      → l.preread_token ≡ o
      → IsLexer fileid l
      → IsLexer fileid (next_with parse_f64 o l).1
        × IsPlaced l.source fileid (next_with parse_f64 o l).0
  unfolding next_with parse_next_token
  next_with-IsLexer fileid (some t) l e i =
      let (start, end) = i.ahead t e in
      (
        record {
          fits = i.fits;
          internal = i.internal;
          current = i.internal;
          ahead = λ t h. absurd (cc h);
        },
        (start, subst (IsPosition l.source fileid) (sym end) i.internal),
      )
  next_with-IsLexer fileid none l e i =
      let (start, end, after) = parse_next_token-IsPosition fileid l i in
      (
        record {
          fits = i.fits;
          internal = after;
          current = after;
          ahead = λ t h. absurd (cc (e, h));
        },
        (start, subst (IsPosition l.source fileid) (sym end) after),
      )

  peek_with-IsLexer :
      (fileid : Option ℕ) (o : Option (AnnotatedToken F)) (l : Lexer F)
      → l.preread_token ≡ o
      → IsLexer fileid l
      → IsLexer fileid (peek_with parse_f64 o l).1
  unfolding peek_with parse_next_token
  peek_with-IsLexer fileid (some t) l e i = i
  peek_with-IsLexer fileid none l e i =
      let (start, end, after) = parse_next_token-IsPosition fileid l i in
      record {
        fits = i.fits;
        internal = after;
        current = i.current;
        ahead = λ t h.
            let is : (parse_next_token parse_f64 l).0 ≡ t = cc h in
            (
              subst (λ (u : AnnotatedToken F). IsPosition l.source fileid u.start) is start,
              ap (λ (u : AnnotatedToken F). u.end) (sym is) ∙ end,
            );
      }

  skip_with-next_with :
      (o : Option (AnnotatedToken F)) (l : Lexer F)
      → skip_with parse_f64 o l ≡ (next_with parse_f64 o l).1
  unfolding skip_with next_with
  skip_with-next_with (some t) l = refl
  skip_with-next_with none l = refl

  pub set_trivia-IsLexer :
      (fileid : Option ℕ) (l : Lexer F) (b : Bool)
      → IsLexer fileid l
      → IsLexer fileid (set_trivia parse_f64 b l)
  unfolding set_trivia
  set_trivia-IsLexer fileid l b i = record {
    fits = i.fits;
    internal = i.internal;
    current = i.current;
    ahead = i.ahead;
  }

  rewind-IsLexer :
      (fileid : Option ℕ) (l : Lexer F) (pos : LexPos)
      → IsPosition l.source fileid pos
      → IsLexer fileid l
      → IsLexer fileid (rewind parse_f64 pos l)
  unfolding rewind
  rewind-IsLexer fileid l pos h i = record {
    fits = i.fits;
    internal = h;
    current = h;
    ahead = λ t e. absurd (cc e);
  }

  pub next_tok-IsLexer :
      (fileid : Option ℕ) (l : Lexer F)
      → IsLexer fileid l
      → IsLexer fileid (next_tok parse_f64 l).1 × IsPlaced l.source fileid (next_tok parse_f64 l).0
  unfolding next_tok
  next_tok-IsLexer fileid l i = next_with-IsLexer fileid l.preread_token l refl i

  Call-IsLexer :
      (fileid : Option ℕ) (l m : Lexer F) → Call fileid l m → IsLexer fileid l → IsLexer fileid m
  unfolding peek_tok skip_tok
  Call-IsLexer fileid l m call i = elim call [
    | nexts l m t e ↦ subst (IsLexer fileid) (ap (λ r. r.1) e) (next_tok-IsLexer fileid l i).0
    | peeks l m t e ↦
        subst (IsLexer fileid) (ap (λ r. r.1) e) (peek_with-IsLexer fileid l.preread_token l refl i)
    | skips l m e ↦
        subst (IsLexer fileid) (sym (skip_with-next_with l.preread_token l) ∙ e)
          (next_with-IsLexer fileid l.preread_token l refl i).0
    | sets l m b e ↦ subst (IsLexer fileid) e (set_trivia-IsLexer fileid l b i)
    | rewinds l m pos h e ↦ subst (IsLexer fileid) e (rewind-IsLexer fileid l pos h i)
  ]

  pub Calls-IsLexer :
      (fileid : Option ℕ) (l m : Lexer F) → Calls fileid l m → IsLexer fileid l → IsLexer fileid m
  Calls-IsLexer fileid l m calls i = elim calls as (λ k _. IsLexer fileid k) [
    | none_yet ↦ i
    | more (before → ih) call ↦ Call-IsLexer fileid _ _ call ih
  ]

  start_pos : (src : Str) (fileid : Option ℕ) → IsPosition src fileid (start_of fileid)
  start_pos src fileid = record { front = []; rest = src; whole = refl; at = refl }

  abbrev pub first_lexer : Str → Option ℕ → Lexer F
  first_lexer src fileid = record {
    source = src;
    internal_getc_pos = start_of fileid;
    current_pos = start_of fileid;
    preread_token = none;
    trivia_enabled = true;
  }

  pub new_lexer_lem :
      (src : Str) (fileid : Option ℕ) (l : Lexer F)
      → new_lexer parse_f64 src fileid ≡ some l
      → (length src ≤ 4294967295) × (first_lexer src fileid ≡ l)
  unfolding new_lexer
  new_lexer_lem src fileid l e = elim (Bool-cases (ltb 4294967295 (length src))) [
    | inl too_big ↦ let none_there : none ≡ some l = rw too_big at e in absurd (cc none_there)
    | inr fits ↦
        let made : some (first_lexer src fileid) ≡ some l = rw fits at e in
        (ground (arith, fits), cc made)
  ]

  pub new_lexer-IsLexer :
      (src : Str) (fileid : Option ℕ) (l : Lexer F)
      → new_lexer parse_f64 src fileid ≡ some l
      → IsLexer fileid l
  new_lexer-IsLexer src fileid l e =
      let (fits, is) = new_lexer_lem src fileid l e in
      subst (IsLexer fileid) is (record {
        fits = fits;
        internal = start_pos src fileid;
        current = start_pos src fileid;
        ahead = λ t h. absurd (cc h);
      })

  -- Whatever calls are made on a new lexer, the positions in it are those of its source: so many lines,
  -- 65535 at most, so many characters of the last line, 255 at most, and so many bytes. The next token
  -- starts and ends at such positions. Behind a 255th character of a line every column is 255.
  pub Calls-IsPlaced :
      (src : Str) (fileid : Option ℕ) (l m : Lexer F)
      → new_lexer parse_f64 src fileid ≡ some l
      → Calls fileid l m
      → IsLexer fileid m × IsPlaced m.source fileid (next_tok parse_f64 m).0
  Calls-IsPlaced src fileid l m e calls =
      let i = Calls-IsLexer fileid l m calls (new_lexer-IsLexer src fileid l e) in
      (i, (next_tok-IsLexer fileid m i).1)
