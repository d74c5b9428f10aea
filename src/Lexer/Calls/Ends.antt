-- ===== src/Lexer/Calls/Ends.antt =====
-- The loops of the lexer end, and the tokens of a source.
use nitrate.Prelude.{
  ℕ, zero, suc, ◌≤◌, ◌<◌, ◌≡◌, refl, sym, ap, subst, ◌∙◌, Bool, true, false, Option, none, some,
  List, [], ◌∷◌, if◌then◌else◌, length, Bool-cases, inl, inr, arith,
}
use nitrate.Mangle.Bytes.{Str}
use nitrate.Lexer.Cursor.{LexPos, Cursor}
use nitrate.Lexer.Stream.{
  AnnotatedToken, Lexer, start_of, is_end, new_lexer, set_trivia, parse_next, cursor,
  parse_next_token, next_tok, next_with, next_item, collect,
}
use nitrate.Lexer.Reads.{Reads_trans}
use nitrate.Lexer.Calls.{first_lexer, new_lexer_lem, new_lexer-IsLexer, set_trivia-IsLexer}
use nitrate.Lexer.Invariant.{
  IsLexer, IsAt, IsAt-IsPosition, IsAt-drop, Reads-IsAt, pos_behind-IsAt, parsed,
}
use nitrate.Lexer.Calls.Fuel.{parse_next_shrinks}

module _ {F : Type 0} (parse_f64 : Str → Option F) where
  -- The token that `next_tok` reads when none is read ahead.
  abbrev next_read : Lexer F → AnnotatedToken F × Cursor
  next_read l =
      parse_next parse_f64 (suc (length (cursor parse_f64 l).input)) l.trivia_enabled
        (cursor parse_f64 l)

  -- The tokens follow on one another: each starts where the one before it ends.
  abbrev pub IsTiling : LexPos → List (AnnotatedToken F) → Type 0
  IsTiling pos [] = Unit {0}
  IsTiling pos (t ∷ ts) = (t.start ≡ pos) × IsTiling t.end ts

  next_tok-next_read :
      (l : Lexer F)
      → l.preread_token ≡ none
      → next_tok parse_f64 l ≡ (
        (next_read l).0,
        record l {
          internal_getc_pos = (next_read l).1.pos;
          current_pos = (next_read l).1.pos;
          preread_token = none;
        },
      )
  unfolding next_tok next_with parse_next_token
  next_tok-next_read l e = rw e refl

  -- The lexer behind the next token, which has nothing read ahead.
  abbrev behind : Lexer F → Lexer F
  behind l = record l {
    internal_getc_pos = (next_read l).1.pos;
    current_pos = (next_read l).1.pos;
    preread_token = none;
  }

  behind-IsAt :
      (fileid : Option ℕ) (l : Lexer F) → IsLexer fileid l → IsAt l.source fileid (next_read l).1
  behind-IsAt fileid l i =
      let p = parsed parse_f64 l in
      Reads-IsAt i.fits (Reads_trans p.skipped p.taken) (pos_behind-IsAt i.internal)

  behind-IsLexer : (fileid : Option ℕ) (l : Lexer F) → IsLexer fileid l → IsLexer fileid (behind l)
  behind-IsLexer fileid l i =
      let at = IsAt-IsPosition (behind-IsAt fileid l i) in
      record { fits = i.fits; internal = at; current = at; ahead = λ t h. absurd (cc h) }

  behind-cursor :
      (fileid : Option ℕ) (l : Lexer F)
      → IsLexer fileid l
      → cursor parse_f64 (behind l) ≡ (next_read l).1
  behind-cursor fileid l i = IsAt-drop (behind-IsAt fileid l i)

  starts : (l : Lexer F) → l.trivia_enabled ≡ true → (next_read l).0.start ≡ l.internal_getc_pos
  unfolding parse_next
  starts l t =
      ap
        (λ b.
          (parse_next parse_f64 (suc (length (cursor parse_f64 l).input)) b
            (cursor parse_f64 l)).0.start)
        t

  next_item-next_read :
      (l : Lexer F) (b : Bool)
      → l.preread_token ≡ none
      → is_end (next_read l).0.token ≡ b
      → next_item parse_f64 l ≡ (if b then none else some (next_read l).0, behind l)
  unfolding next_item
  next_item-next_read l b e h =
      ap (λ (r : AnnotatedToken F × Lexer F). (if is_end r.0.token then none else some r.0, r.1))
        (next_tok-next_read l e)
      ∙ ap (λ b. (if b then none else some (next_read l).0, behind l)) h

  with_first :
      AnnotatedToken F → Option (List (AnnotatedToken F)) → Option (List (AnnotatedToken F))
  with_first t none = none
  with_first t (some ts) = some (t ∷ ts)

  -- A step of the loop from what `next_item` gives.
  collect_by : ℕ → Option (AnnotatedToken F) × Lexer F → Option (List (AnnotatedToken F))
  collect_by f (none, m) = some []
  collect_by f (some token, m) = with_first token (collect parse_f64 f m)

  collect-collect_by :
      (f : ℕ) (l : Lexer F) → collect parse_f64 (suc f) l ≡ collect_by f (next_item parse_f64 l)
  unfolding collect collect_by with_first
  collect-collect_by f l = by_item (next_item parse_f64 l)
    where
      by_item :
          (r : Option (AnnotatedToken F) × Lexer F)
          → elim r.0 as (λ _. Option (List (AnnotatedToken F))) [
            | none ↦ some []
            | some token ↦ elim (collect parse_f64 f r.1) [
              | none ↦ none
              | some tokens ↦ some (token ∷ tokens)
            ]
          ]
            ≡ collect_by f r
      by_item (none, m) = refl
      by_item (some token, m) =
          elim (collect parse_f64 f m)
            as (λ o.
              elim o as (λ _. Option (List (AnnotatedToken F))) [
                | none ↦ none
                | some tokens ↦ some (token ∷ tokens)
              ]
              ≡ with_first token o) [ none ↦ refl | some ts ↦ refl ]

  collect_end :
      (f : ℕ) (l : Lexer F)
      → l.preread_token ≡ none
      → is_end (next_read l).0.token ≡ true
      → collect parse_f64 (suc f) l ≡ some []
  unfolding collect_by with_first
  collect_end f l e ends =
      collect-collect_by f l ∙ ap (collect_by f) (next_item-next_read l true e ends)

  collect_more :
      (f : ℕ) (l : Lexer F) (ts : List (AnnotatedToken F))
      → l.preread_token ≡ none
      → is_end (next_read l).0.token ≡ false
      → collect parse_f64 f (behind l) ≡ some ts
      → collect parse_f64 (suc f) l ≡ some ((next_read l).0 ∷ ts)
  unfolding collect_by with_first
  collect_more f l ts e goes_on rest =
      collect-collect_by f l
      ∙ ap (collect_by f) (next_item-next_read l false e goes_on)
      ∙ ap (λ r. with_first (next_read l).0 r) rest

  collect_left :
      (fileid : Option ℕ) (f : ℕ) (l : Lexer F)
      → IsLexer fileid l
      → l.preread_token ≡ none
      → length (cursor parse_f64 l).input < f
      → (ts : List (AnnotatedToken F)) × (collect parse_f64 f l ≡ some ts)
        × (length ts ≤ length (cursor parse_f64 l).input)
        × (l.trivia_enabled ≡ true → IsTiling l.internal_getc_pos ts)
  collect_left fileid zero l i e h = absurd (omega arith)
  collect_left fileid (suc f) l i e h = elim (Bool-cases (is_end (next_read l).0.token)) [
    | inl ends ↦ ([], collect_end f l e ends, omega arith, λ _. tt)
    | inr goes_on ↦
        let shrinks =
          parse_next_shrinks parse_f64 _ l.trivia_enabled (cursor parse_f64 l) (omega arith)
            goes_on in
        let resumes = ap (λ (c : Cursor). length c.input) (behind-cursor fileid l i) in
        let (ts, all, count, tiles) =
          collect_left fileid f (behind l) (behind-IsLexer fileid l i) refl
            (omega (arith, h, shrinks, resumes)) in
        (
          (next_read l).0 ∷ ts,
          collect_more f l ts e goes_on all,
          omega (arith, count, shrinks, resumes),
          λ t.
              (starts l t, subst (λ pos. IsTiling pos ts) (sym (parsed parse_f64 l).end) (tiles t)),
        )
  ]

  -- A source that is not too long has a list of tokens, with its trivia or without: every byte more
  -- than a token's own one makes it shorter, and as many rounds as the source has bytes, and one, are
  -- enough for the loop.
  pub collect_total :
      (src : Str) (fileid : Option ℕ) (l : Lexer F) (trivia : Bool)
      → new_lexer parse_f64 src fileid ≡ some l
      → (ts : List (AnnotatedToken F)) × (collect parse_f64
            (suc (length src))
            (set_trivia parse_f64 trivia l)
          ≡ some ts)
        × (length ts ≤ length src)
  unfolding set_trivia
  collect_total src fileid l trivia e =
      let is = (new_lexer_lem parse_f64 src fileid l e).1 in
      subst
        (λ m.
          (ts : List (AnnotatedToken F)) × (collect parse_f64 (suc (length src))
              (set_trivia parse_f64 trivia m)
            ≡ some ts)
          × (length ts ≤ length src))
        is
        (let i =
            set_trivia-IsLexer parse_f64 fileid first trivia
              (subst (IsLexer fileid) (sym is) (new_lexer-IsLexer parse_f64 src fileid l e)) in
          let (ts, all, count, tiles) =
            collect_left fileid (suc (length src)) (set_trivia parse_f64 trivia first) i refl
              (omega arith) in
          (ts, all, count))
    where
      first : Lexer F
      first = first_lexer parse_f64 src fileid

  -- A new lexer gives the trivia too, and its tokens stand side by side: the first starts at the start of the file,
  -- and each other one where the one before it ends.
  pub collect-IsTiling :
      (src : Str) (fileid : Option ℕ) (l : Lexer F)
      → new_lexer parse_f64 src fileid ≡ some l
      → (ts : List (AnnotatedToken F)) × (collect parse_f64 (suc (length src)) l ≡ some ts)
        × IsTiling (start_of fileid) ts
  collect-IsTiling src fileid l e =
      let is = (new_lexer_lem parse_f64 src fileid l e).1 in
      subst
        (λ m.
          (ts : List (AnnotatedToken F)) × (collect parse_f64 (suc (length src)) m ≡ some ts)
          × IsTiling (start_of fileid) ts)
        is
        (let i = subst (IsLexer fileid) (sym is) (new_lexer-IsLexer parse_f64 src fileid l e) in
          let (ts, all, count, tiles) =
            collect_left fileid (suc (length src)) (first_lexer parse_f64 src fileid) i refl
              (omega arith) in
          (ts, all, tiles refl))
