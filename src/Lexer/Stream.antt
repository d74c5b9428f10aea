-- ===== src/Lexer/Stream.antt =====
-- The lexer as a stream of tokens: what the parser calls.
use nitrate.Prelude.{
  ℕ, zero, suc, Bool, true, false, ◌&&◌, not, Option, none, some, List, [], ◌∷◌, ltb, if◌then◌else◌,
  length,
}
use nitrate.Prelude.Slices.{drop}
use nitrate.Mangle.Bytes.{Str}
use nitrate.Lexer.Token.{
  Token, codes, is_trivia, name, self_type, self_keyword, super_kw, crate_kw, eof,
}
use nitrate.Lexer.Cursor.{LexPos, Cursor}
use nitrate.Lexer.Scan.{parse_token}

-- The token, and the positions where it starts and ends.
pub record AnnotatedToken (F : Type 0) : Type 0 where
  pub token : Token F
  pub start : LexPos
  pub end : LexPos

pub record Lexer (F : Type 0) : Type 0 where
  pub source : Str
  pub internal_getc_pos : LexPos
  pub current_pos : LexPos
  pub preread_token : Option (AnnotatedToken F)
  pub trivia_enabled : Bool

abbrev pub start_of : Option ℕ → LexPos
start_of fileid = record { fileid = fileid; line = 0; column = 0; offset = 0 }

abbrev pub is_end : {F : Type 0} → Token F → Bool
is_end eof = true
is_end _ = false

module _ {F : Type 0} (parse_f64 : Str → Option F) where
  -- `MAX_SOURCE_SIZE` is `u32::MAX`.
  unfoldable pub new_lexer : Str → Option ℕ → Option (Lexer F)
  new_lexer src fileid =
      if ltb 4294967295 (length src)
      then none
      else some (record {
        source = src;
        internal_getc_pos = start_of fileid;
        current_pos = start_of fileid;
        preread_token = none;
        trivia_enabled = true;
      })

  unfoldable pub set_trivia : Bool → Lexer F → Lexer F
  set_trivia enabled l = record l { trivia_enabled = enabled }

  -- Trivia that is not wanted is a token more for each recursive call: the fuel is the bytes left,
  -- and one.
  unfoldable pub parse_next : ℕ → Bool → Cursor → AnnotatedToken F × Cursor
  unfolding parse_token is_trivia
  parse_next zero trivia c = (record { token = eof; start = c.pos; end = c.pos }, c)
  parse_next (suc f) trivia c =
      let (token, after) = parse_token parse_f64 c in
      let again = parse_next f trivia after in
      if not trivia && is_trivia token
      then again
      else (record { token = token; start = c.pos; end = after.pos }, after)

  abbrev pub cursor : Lexer F → Cursor
  cursor l = record { input = drop l.internal_getc_pos.offset l.source; pos = l.internal_getc_pos }

  unfoldable pub parse_next_token : Lexer F → AnnotatedToken F × Lexer F
  unfolding parse_next
  parse_next_token l =
      let c = cursor l in
      let (token, after) = parse_next (suc (length c.input)) l.trivia_enabled c in
      (token, record l { internal_getc_pos = after.pos })

  abbrev pub catch_up : Lexer F → Lexer F
  catch_up l = record l { current_pos = l.internal_getc_pos }

  unfoldable pub next_with : Option (AnnotatedToken F) → Lexer F → AnnotatedToken F × Lexer F
  unfolding parse_next_token
  next_with (some peeked) l = (peeked, catch_up (record l { preread_token = none }))
  next_with none l = let (token, after) = parse_next_token l in (token, catch_up after)

  unfoldable pub next_tok : Lexer F → AnnotatedToken F × Lexer F
  unfolding next_with
  next_tok l = next_with l.preread_token l

  unfoldable pub peek_with : Option (AnnotatedToken F) → Lexer F → AnnotatedToken F × Lexer F
  unfolding parse_next_token
  peek_with (some peeked) l = (peeked, l)
  peek_with none l =
      let (peeked, after) = parse_next_token l in
      (peeked, record after { preread_token = some peeked })

  unfoldable pub peek_tok : Lexer F → AnnotatedToken F × Lexer F
  unfolding peek_with
  peek_tok l = peek_with l.preread_token l

  unfoldable pub skip_with : Option (AnnotatedToken F) → Lexer F → Lexer F
  unfolding parse_next_token
  skip_with (some peeked) l = catch_up (record l { preread_token = none })
  skip_with none l = catch_up (parse_next_token l).1

  unfoldable pub skip_tok : Lexer F → Lexer F
  unfolding skip_with
  skip_tok l = skip_with l.preread_token l

  -- The comparison with a token is a test.
  unfoldable pub next_is : (Token F → Bool) → Lexer F → Bool × Lexer F
  unfolding peek_tok
  next_is matches l = let (peeked, after) = peek_tok l in (matches peeked.token, after)

  unfoldable pub skip_if : (Token F → Bool) → Lexer F → Bool × Lexer F
  unfolding peek_tok skip_tok
  skip_if matches l =
      let (peeked, after) = peek_tok l in
      if matches peeked.token then (true, skip_tok after) else (false, after)

  unfoldable pub is_eof : Lexer F → Bool × Lexer F
  unfolding next_is
  is_eof l = next_is is_end l

  unfoldable pub peek_pos : Lexer F → LexPos × Lexer F
  unfolding peek_tok
  peek_pos l = let (peeked, after) = peek_tok l in (peeked.start, after)

  unfoldable pub rewind : LexPos → Lexer F → Lexer F
  rewind pos l = record l { internal_getc_pos = pos; current_pos = pos; preread_token = none }

  unfoldable pub skip_while : ℕ → (Token F → Bool) → Lexer F → Option (Lexer F)
  unfolding is_eof next_tok
  skip_while zero is_not l = none
  skip_while (suc f) is_not l =
      let (at_end, peeked) = is_eof l in
      let (token, after) = next_tok peeked in
      let more = skip_while f is_not after in
      if at_end then some peeked else if is_not token.token then some after else more

  abbrev pub name_of : Token F → Option Str
  name_of (name s) = some s
  name_of self_type = some (codes "Self")
  name_of self_keyword = some (codes "self")
  name_of super_kw = some (codes "super")
  name_of crate_kw = some (codes "crate")
  name_of _ = none

  unfoldable pub next_if_name : Lexer F → Option Str × Lexer F
  unfolding peek_tok skip_tok
  next_if_name l =
      let (peeked, after) = peek_tok l in
      elim (name_of peeked.token) [ some s ↦ (some s, skip_tok after) | none ↦ (none, after) ]

  -- `LexerIterator::next`.
  unfoldable pub next_item : Lexer F → Option (AnnotatedToken F) × Lexer F
  unfolding next_tok
  next_item l =
      let (token, after) = next_tok l in (if is_end token.token then none else some token, after)

  -- What a loop over the iterator sees.
  unfoldable pub collect : ℕ → Lexer F → Option (List (AnnotatedToken F))
  unfolding next_item
  collect zero l = none
  collect (suc f) l =
      let (item, after) = next_item l in
      let rest = collect f after in
      elim item [
        | none ↦ some []
        | some token ↦ elim rest [ none ↦ none | some tokens ↦ some (token ∷ tokens) ]
      ]
