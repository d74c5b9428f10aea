-- ===== src/Lexer/Invariant.antt =====
-- What every call of the lexer keeps, and where its tokens stand.
use mathlib.Core.List.{append_assoc}
use nitrate.Prelude.{
  ℕ, zero, suc, ◌≤◌, ◌≡◌, refl, sym, ap, ◌∙◌, Bool, ◌&&◌, not, Option, some, ◌++◌, Bool-cases, inl,
  inr, length, length-append, arith,
}
use nitrate.Prelude.Slices.{drop, drop-append}
use nitrate.Mangle.Bytes.{Str}
use nitrate.Lexer.Token.{is_trivia}
use nitrate.Lexer.Cursor.{LexPos, Cursor}
use nitrate.Lexer.Scan.{parse_token}
use nitrate.Lexer.Stream.{AnnotatedToken, Lexer, parse_next, cursor}
use nitrate.Lexer.Reads.{Reads, Reads_refl, Reads_trans, advance_all, advance_all-append}
use nitrate.Lexer.Reads.Tokens.{parse_token-Reads}
use nitrate.Lexer.Positions.{pos_behind, origin, advance_all-pos_behind}

-- A position in a source is the position behind some bytes at its front.
pub record IsPosition (source : Str) (fileid : Option ℕ) (pos : LexPos) : Type 0 where
  pub front : Str
  pub rest : Str
  pub whole : source ≡ front ++ rest
  pub at : pos ≡ pos_behind fileid front

-- A cursor is at a position if its input is what follows.
pub record IsAt (source : Str) (fileid : Option ℕ) (c : Cursor) : Type 0 where
  pub front : Str
  pub whole : source ≡ front ++ c.input
  pub at : c.pos ≡ pos_behind fileid front

front_fits :
    (source front rest : Str)
    → length source ≤ 4294967295
    → source ≡ front ++ rest
    → length front ≤ 4294967295
front_fits source front rest h e =
    let l = ap length e ∙ length-append front rest in omega (arith, h, l)

pub Reads-IsAt :
    {source : Str} {fileid : Option ℕ} {c d : Cursor}
    → length source ≤ 4294967295
    → Reads c d
    → IsAt source fileid c
    → IsAt source fileid d
Reads-IsAt {source} {fileid} {c} {d} fits r i =
    let whole : source ≡ (i.front ++ r.bytes) ++ d.input =
      i.whole ∙ ap (λ x. i.front ++ x) r.front ∙ sym (append_assoc i.front r.bytes d.input) in
    let before = front_fits source i.front c.input fits i.whole in
    let behind = front_fits source (i.front ++ r.bytes) d.input fits whole in
    record {
      front = i.front ++ r.bytes;
      whole = whole;
      at =
          r.moved
          ∙ ap (advance_all r.bytes) (i.at ∙ sym (advance_all-pos_behind fileid i.front before))
          ∙ sym (advance_all-append i.front r.bytes (origin fileid))
          ∙ advance_all-pos_behind fileid (i.front ++ r.bytes) behind;
    }

pub IsAt-IsPosition :
    {source : Str} {fileid : Option ℕ} {c : Cursor}
    → IsAt source fileid c
    → IsPosition source fileid c.pos
IsAt-IsPosition {c = c} i = record { front = i.front; rest = c.input; whole = i.whole; at = i.at }

-- At a position, the rest of the source is what the lexer goes on with.
pub pos_behind-IsAt :
    {source : Str} {fileid : Option ℕ} {pos : LexPos}
    → IsPosition source fileid pos
    → IsAt source fileid (record { input = drop pos.offset source; pos = pos })
pos_behind-IsAt {source} {fileid} {pos} i =
    let behind : drop pos.offset source ≡ i.rest =
      ap (λ p. drop p.offset source) i.at
      ∙ ap (drop (length i.front)) i.whole
      ∙ drop-append i.front i.rest in
    record { front = i.front; whole = rw behind i.whole; at = i.at }

pub IsAt-drop :
    {source : Str} {fileid : Option ℕ} {c : Cursor}
    → IsAt source fileid c
    → record { input = drop c.pos.offset source; pos = c.pos } ≡ c
IsAt-drop {source} {fileid} {c} i =
    let behind : drop c.pos.offset source ≡ c.input =
      ap (λ p. drop p.offset source) i.at
      ∙ ap (drop (length i.front)) i.whole
      ∙ drop-append i.front c.input in
    ap (λ s. record { input = s; pos = c.pos }) behind

module _ {F : Type 0} where
  -- A token stands behind some trivia, and the cursor is behind it.
  pub record IsParsed (c : Cursor) (r : AnnotatedToken F × Cursor) : Type 0 where
    pub first : Cursor
    pub skipped : Reads c first
    pub start : r.0.start ≡ first.pos
    pub taken : Reads first r.1
    pub end : r.0.end ≡ r.1.pos

  pub behind_trivia :
      {c d : Cursor} {r : AnnotatedToken F × Cursor} → Reads c d → IsParsed d r → IsParsed c r
  behind_trivia r i = record {
    first = i.first;
    skipped = Reads_trans r i.skipped;
    start = i.start;
    taken = i.taken;
    end = i.end;
  }

  -- The positions in a lexer are positions in its source, and a token that was read ahead ends where
  -- it reads on.
  pub record IsLexer (fileid : Option ℕ) (l : Lexer F) : Type 0 where
    pub fits : length l.source ≤ 4294967295
    pub internal : IsPosition l.source fileid l.internal_getc_pos
    pub current : IsPosition l.source fileid l.current_pos
    pub ahead :
        (t : AnnotatedToken F)
        → l.preread_token ≡ some t
        → IsPosition l.source fileid t.start × (t.end ≡ l.internal_getc_pos)

module _ {F : Type 0} (parse_f64 : Str → Option F) where
  pub parse_next-IsParsed :
      (f : ℕ) (trivia : Bool) (c : Cursor) → IsParsed c (parse_next parse_f64 f trivia c)
  unfolding parse_next
  parse_next-IsParsed zero trivia c = record {
    first = c;
    skipped = Reads_refl c;
    start = refl;
    taken = Reads_refl c;
    end = refl;
  }
  parse_next-IsParsed (suc f) trivia c =
      let after = (parse_token parse_f64 c).1 in
      elim (Bool-cases (not trivia && is_trivia (parse_token parse_f64 c).0)) [
        | inl skips ↦
            rw skips
              (behind_trivia (parse_token-Reads parse_f64 c) (parse_next-IsParsed f trivia after))
        | inr stays ↦ rw stays (record {
          first = c;
          skipped = Reads_refl c;
          start = refl;
          taken = parse_token-Reads parse_f64 c;
          end = refl;
        })
      ]

  pub parsed :
      (l : Lexer F)
      → IsParsed (cursor parse_f64 l) (
          parse_next parse_f64
            (suc (length (cursor parse_f64 l).input))
            l.trivia_enabled
            (cursor parse_f64 l))
  parsed l = parse_next-IsParsed _ l.trivia_enabled (cursor parse_f64 l)
