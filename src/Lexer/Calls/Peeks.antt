-- ===== src/Lexer/Calls/Peeks.antt =====
-- Looking ahead and going back, against reading the next token.
use nitrate.Prelude.{ℕ, Bool, ◌≡◌, refl, sym, ap, subst, ◌∙◌, Option, none, some}
use nitrate.Mangle.Bytes.{Str}
use nitrate.Lexer.Cursor.{LexPos}
use nitrate.Lexer.Stream.{
  AnnotatedToken, Lexer, start_of, new_lexer, parse_next_token, catch_up, next_with, next_tok,
  peek_with, peek_tok, skip_with, skip_tok, set_trivia, rewind,
}
use nitrate.Lexer.Calls.{new_lexer_lem, first_lexer, Call, nexts, peeks, skips, sets, rewinds}

module _ {F : Type 0} (parse_f64 : Str → Option F) where
  peek_with-next :
      (o : Option (AnnotatedToken F)) (l : Lexer F)
      → l.preread_token ≡ o
      → (next_with parse_f64 (some (peek_with parse_f64 o l).0) (peek_with parse_f64 o l).1
          ≡ next_with parse_f64 o l)
        × ((next_with parse_f64 o l).0 ≡ (peek_with parse_f64 o l).0)
        × ((peek_with parse_f64 o l).1.preread_token ≡ some (peek_with parse_f64 o l).0)
  unfolding peek_with next_with parse_next_token
  peek_with-next (some t) l e = (refl, refl, e)
  peek_with-next none l e =
      let read = parse_next_token parse_f64 l in
      let behind = record (catch_up parse_f64 read.1) { preread_token = none } in
      (
        ap (λ (o : Option (AnnotatedToken F)). (read.0, record behind { preread_token = o }))
            (sym e),
        refl,
        refl,
      )

  skip_with-next :
      (o : Option (AnnotatedToken F)) (l : Lexer F)
      → skip_with parse_f64 o l ≡ (next_with parse_f64 o l).1
  unfolding skip_with next_with
  skip_with-next (some t) l = refl
  skip_with-next none l = refl

  peek_with-again :
      (m : Lexer F) {t : AnnotatedToken F}
      → m.preread_token ≡ some t
      → peek_with parse_f64 m.preread_token m ≡ (t, m)
  unfolding peek_with
  peek_with-again m e = rw e refl

  -- Peeking tells the next token, again and again, and changes neither that token nor the lexer
  -- behind it; skipping only drops the token.
  pub peek_tok-next_tok :
      (l : Lexer F)
      → let (t, m) = peek_tok parse_f64 l in
        ((next_tok parse_f64 l).0 ≡ t)
        × (next_tok parse_f64 m ≡ next_tok parse_f64 l)
        × (peek_tok parse_f64 m ≡ (t, m))
        × (skip_tok parse_f64 m ≡ (next_tok parse_f64 l).1)
  unfolding peek_tok next_tok skip_tok
  peek_tok-next_tok l =
      let (same, first, ahead) = peek_with-next l.preread_token l refl in
      let m = (peek_with parse_f64 l.preread_token l).1 in
      (
        first,
        ap (λ o. next_with parse_f64 o m) ahead ∙ same,
        peek_with-again m ahead,
        skip_with-next m.preread_token m
            ∙ ap (λ r. r.1) (ap (λ o. next_with parse_f64 o m) ahead ∙ same),
      )

  -- Going back to `current_pos` changes nothing of what is read.
  abbrev IsResumable : Lexer F → Type 0
  IsResumable l = next_tok parse_f64 (rewind parse_f64 l.current_pos l) ≡ next_tok parse_f64 l

  -- Calls of which none turns trivia on or off.
  pub data Parses (fileid : Option ℕ) (l : Lexer F) : Lexer F → Type 0 where
    starts : Parses fileid l l
    goes_on :
        {m n : Lexer F}
        → Parses fileid l m
        → Call parse_f64 fileid m n
        → n.trivia_enabled ≡ m.trivia_enabled
        → Parses fileid l n

  idle-IsResumable :
      (l : Lexer F) (pos : LexPos)
      → IsResumable (record l { internal_getc_pos = pos; current_pos = pos; preread_token = none })
  unfolding rewind
  idle-IsResumable l pos = refl

  next_with-IsResumable :
      (o : Option (AnnotatedToken F)) (l : Lexer F)
      → l.preread_token ≡ o
      → IsResumable (next_with parse_f64 o l).1
  unfolding next_with parse_next_token
  next_with-IsResumable (some t) l e = idle-IsResumable l l.internal_getc_pos
  next_with-IsResumable none l e =
      let m = (parse_next_token parse_f64 l).1 in
      let at = m.internal_getc_pos in
      subst IsResumable
        {x = record m { internal_getc_pos = at; current_pos = at; preread_token = none }}
        {y = catch_up parse_f64 m}
        (ap (λ o. record m { internal_getc_pos = at; current_pos = at; preread_token = o }) (sym e))
        (idle-IsResumable m at)

  peek_with-rewind :
      (o : Option (AnnotatedToken F)) (l : Lexer F)
      → rewind parse_f64 (peek_with parse_f64 o l).1.current_pos (peek_with parse_f64 o l).1
        ≡ rewind parse_f64 l.current_pos l
  unfolding peek_with parse_next_token rewind
  peek_with-rewind (some t) l = refl
  peek_with-rewind none l = refl

  peek_tok-IsResumable : (l : Lexer F) → IsResumable l → IsResumable (peek_tok parse_f64 l).1
  unfolding peek_tok
  peek_tok-IsResumable l i =
      ap (next_tok parse_f64) (peek_with-rewind l.preread_token l) ∙ i ∙ sym (peek_tok-next_tok l).1

  set_trivia_same :
      (l : Lexer F) (b : Bool)
      → (set_trivia parse_f64 b l).trivia_enabled ≡ l.trivia_enabled
      → set_trivia parse_f64 b l ≡ l
  unfolding set_trivia
  set_trivia_same l b e = ap (λ b. record l { trivia_enabled = b }) e

  Call-IsResumable :
      (fileid : Option ℕ) (l m : Lexer F)
      → Call parse_f64 fileid l m
      → m.trivia_enabled ≡ l.trivia_enabled
      → IsResumable l
      → IsResumable m
  unfolding next_tok skip_tok rewind
  Call-IsResumable fileid l m (nexts _ _ t e) kept i =
      subst IsResumable (ap (λ r. r.1) e) (next_with-IsResumable l.preread_token l refl)
  Call-IsResumable fileid l m (peeks _ _ t e) kept i =
      subst IsResumable (ap (λ r. r.1) e) (peek_tok-IsResumable l i)
  Call-IsResumable fileid l m (skips _ _ e) kept i =
      subst IsResumable (sym (skip_with-next l.preread_token l) ∙ e)
        (next_with-IsResumable l.preread_token l refl)
  Call-IsResumable fileid l m (sets _ _ b e) kept i =
      subst IsResumable (sym (set_trivia_same l b (ap (λ r. r.trivia_enabled) e ∙ kept)) ∙ e) i
  Call-IsResumable fileid l m (rewinds _ _ pos h e) kept i =
      subst IsResumable e (idle-IsResumable l pos)

  -- A parser that goes back to the lexer's current position, after any calls on a new lexer that leave
  -- the trivia switch alone, reads on as if it had not: a token that was read ahead is read again.
  pub rewind-next_tok :
      (src : Str) (fileid : Option ℕ) (l m : Lexer F)
      → new_lexer parse_f64 src fileid ≡ some l
      → Parses fileid l m
      → next_tok parse_f64 (rewind parse_f64 m.current_pos m) ≡ next_tok parse_f64 m
  rewind-next_tok src fileid l m e calls = elim calls as (λ k _. IsResumable k) [
    | starts ↦
        subst IsResumable (new_lexer_lem parse_f64 src fileid l e).1
          (idle-IsResumable (first_lexer parse_f64 src fileid) (start_of fileid))
    | goes_on (before → ih) call kept ↦ Call-IsResumable fileid _ _ call kept ih
  ]
