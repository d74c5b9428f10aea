-- ===== src/Lexer/Cursor.antt =====
-- Positions and the cursor of lex.rs. A cursor has the bytes of the source from the offset on; the
-- source has less than `u32::MAX` bytes, so that the offset does not saturate before its end.
use Prim.Native.Nat.{bit_and}
use nitrate.Prelude.{ℕ, ◌+◌, Bool, ◌||◌, Option, none, some, [], ◌∷◌, ltb, ◌==◌, if◌then◌else◌}
use nitrate.Mangle.Bytes.{Str}

pub record LexPos : Type 0 where
  pub fileid : Option ℕ
  pub line : ℕ
  pub column : ℕ
  pub offset : ℕ

pub record Cursor : Type 0 where
  pub input : Str
  pub pos : LexPos

-- `saturating_add(1)` below a largest number.
unfoldable pub saturating_suc : ℕ → ℕ → ℕ
saturating_suc largest n = if ltb n largest then n + 1 else largest

-- The last byte of a character, or rather its first.
unfoldable pub utf8_end : ℕ → Bool
utf8_end byte = bit_and byte 0x80 == 0 || bit_and byte 0xC0 == 0xC0

unfoldable pub advance_pos : ℕ → LexPos → LexPos
unfolding saturating_suc utf8_end
advance_pos byte current =
    if byte == b'\n'
    then record current {
      line = saturating_suc 65535 current.line;
      column = 0;
      offset = saturating_suc 4294967295 current.offset;
    }
    else record current {
      column = if utf8_end byte then saturating_suc 255 current.column else current.column;
      offset = saturating_suc 4294967295 current.offset;
    }

-- `advance` is called with the byte at the cursor.
unfoldable pub advance : Cursor → Cursor
unfolding advance_pos
advance c = step c.input c.pos
  where
    step : Str → LexPos → Cursor
    step [] pos = record { input = []; pos = pos }
    step (b ∷ s) pos = record { input = s; pos = advance_pos b pos }

unfoldable pub peek_byte : Cursor → Option ℕ
peek_byte c = head c.input
  where
    head : Str → Option ℕ
    head [] = none
    head (b ∷ _) = some b

unfoldable pub read_from : (ℕ → Bool) → Str → LexPos → Str × Cursor
unfolding advance_pos
read_from p [] pos = ([], record { input = []; pos = pos })
read_from p (b ∷ s) pos =
    let (bytes, after) = read_from p s (advance_pos b pos) in
    if p b then (b ∷ bytes, after) else ([], record { input = b ∷ s; pos = pos })

unfoldable pub read_while : (ℕ → Bool) → Cursor → Str × Cursor
unfolding read_from
read_while p c = read_from p c.input c.pos

-- What a part of the lexer gives, and the cursor behind it; behind an error, too.
abbrev pub Scan : Type 0 → Type 0
Scan A = Cursor → Option A × Cursor

module _ {A : Type 0} where
  abbrev pub pure : A → Scan A
  pure a c = (some a, c)

  abbrev pub fail : Scan A
  fail c = (none, c)

infixl 5 ◌>>=◌ ◌>>◌
abbrev pub ◌>>=◌ : {A B : Type 0} → Scan A → (A → Scan B) → Scan B
◌>>=◌ m f c = let (r, c') = m c in elim r [ some a ↦ f a c' | none ↦ (none, c') ]

abbrev pub ◌>>◌ : {A B : Type 0} → Scan A → Scan B → Scan B
m >> k = m >>= λ _. k

module _ {A : Type 0} where
  abbrev pub lifted : Option A → Scan A
  lifted r c = (r, c)

  -- The second where the first one fails, from the cursor that it leaves.
  abbrev pub or_else : Scan A → Scan A → Scan A
  or_else m n c = let (r, c') = m c in elim r [ some a ↦ (some a, c') | none ↦ n c' ]

-- `peek_byte()?`, `advance` and `read_while` as parts.
unfoldable pub peeked : Scan ℕ
unfolding peek_byte
peeked c = (peek_byte c, c)

unfoldable pub skip_byte : Scan (Unit {0})
unfolding advance
skip_byte c = (some tt, advance c)

unfoldable pub bytes_while : (ℕ → Bool) → Scan Str
unfolding read_while
bytes_while p c = let (bytes, after) = read_while p c in (some bytes, after)
