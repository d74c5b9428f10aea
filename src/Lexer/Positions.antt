-- ===== src/Lexer/Positions.antt =====
-- Positions against a description of their own: lines, characters of the last line, bytes.
use nitrate.Prelude.{
  ℕ, suc, ◌+◌, ◌≤◌, ◌≡◌, refl, ap, ◌∙◌, true, Option, [], ◌∷◌, ltb, ◌==◌, if◌then◌else◌, Bool-cases,
  inl, inr, length, arith,
}
use nitrate.Mangle.Bytes.{Str}
use nitrate.Lexer.Cursor.{LexPos, saturating_suc, utf8_end, advance_pos}
use nitrate.Lexer.Reads.{advance_all}

-- At most a largest number.
abbrev pub capped : ℕ → ℕ → ℕ
capped largest n = if ltb n largest then n else largest

abbrev pub newlines : Str → ℕ
newlines [] = 0
newlines (b ∷ s) = if b == b'\n' then suc (newlines s) else newlines s

-- The characters, by their first bytes.
abbrev pub characters : Str → ℕ
characters [] = 0
characters (b ∷ s) = if utf8_end b then suc (characters s) else characters s

-- What is behind the last newline.
abbrev pub last_line : Str → Str
last_line [] = []
last_line (b ∷ s) = if newlines (b ∷ s) == 0 then b ∷ s else last_line s

pub record IsCapped (pos : LexPos) : Type 0 where
  pub line_le : pos.line ≤ 65535
  pub column_le : pos.column ≤ 255
  pub offset_le : pos.offset ≤ 4294967295

advance_line :
    (b : ℕ) (pos : LexPos)
    → (advance_pos b pos).line ≡ (if b == b'\n' then saturating_suc 65535 pos.line else pos.line)
unfolding advance_pos
advance_line b pos = elim (Bool-cases (b == b'\n')) [
  | inl ends ↦ rw ends refl
  | inr other ↦ rw other refl
]

advance_column :
    (b : ℕ) (pos : LexPos)
    → (advance_pos b pos).column
      ≡ (if b == b'\n' then 0 else if utf8_end b then saturating_suc 255 pos.column else pos.column)
unfolding advance_pos
advance_column b pos = elim (Bool-cases (b == b'\n')) [
  | inl ends ↦ rw ends refl
  | inr other ↦ rw other refl
]

advance_offset :
    (b : ℕ) (pos : LexPos) → (advance_pos b pos).offset ≡ saturating_suc 4294967295 pos.offset
unfolding advance_pos
advance_offset b pos = elim (Bool-cases (b == b'\n')) [
  | inl ends ↦ rw ends refl
  | inr other ↦ rw other refl
]

advance_pos-IsCapped : (b : ℕ) (pos : LexPos) → IsCapped pos → IsCapped (advance_pos b pos)
unfolding saturating_suc
advance_pos-IsCapped b pos h = record {
  line_le = rw (advance_line b pos) (ground (arith, h.line_le));
  column_le = rw (advance_column b pos) (ground (arith, h.column_le));
  offset_le = rw (advance_offset b pos) (ground (arith, h.offset_le));
}

advance_all_line :
    (s : Str) (pos : LexPos)
    → IsCapped pos
    → (advance_all s pos).line ≡ capped 65535 (pos.line + newlines s)
unfolding saturating_suc
advance_all_line [] pos h = ground (arith, h.line_le)
advance_all_line (b ∷ s) pos h =
    advance_all_line s (advance_pos b pos) (advance_pos-IsCapped b pos h)
    ∙ rw (advance_line b pos) (ground (arith, h.line_le))

last_line_whole : (s : Str) → (newlines s == 0) ≡ true → last_line s ≡ s
last_line_whole [] h = refl
last_line_whole (b ∷ s) h = rw h refl

-- The column behind some bytes, by the characters of the last line.
abbrev pub column_behind : ℕ → Str → ℕ
column_behind column s =
    if newlines s == 0
    then capped 255 (column + characters s)
    else capped 255 (characters (last_line s))

advance_all_column :
    (s : Str) (pos : LexPos)
    → IsCapped pos
    → (advance_all s pos).column ≡ column_behind pos.column s
unfolding saturating_suc
advance_all_column [] pos h = ground (arith, h.column_le)
advance_all_column (b ∷ s) pos h =
    advance_all_column s (advance_pos b pos) (advance_pos-IsCapped b pos h)
    ∙ rw (advance_column b pos) (ground (arith, h.column_le, last_line_whole s))

pub advance_all_offset :
    (s : Str) (pos : LexPos)
    → pos.offset + length s ≤ 4294967295
    → (advance_all s pos).offset ≡ pos.offset + length s
unfolding saturating_suc
advance_all_offset [] pos h = omega arith
advance_all_offset (b ∷ s) pos h =
    let next : (advance_pos b pos).offset ≡ pos.offset + 1 =
      advance_offset b pos ∙ ground (arith, h) in
    advance_all_offset s (advance_pos b pos) (rw next (omega (arith, h))) ∙ rw next (omega arith)

advance_all_fileid : (s : Str) (pos : LexPos) → (advance_all s pos).fileid ≡ pos.fileid
unfolding advance_pos
advance_all_fileid [] pos = refl
advance_all_fileid (b ∷ s) pos =
    advance_all_fileid s (advance_pos b pos)
    ∙ elim (Bool-cases (b == b'\n')) [ inl ends ↦ rw ends refl | inr other ↦ rw other refl ]

-- The position behind some bytes at the front of a file.
abbrev pub pos_behind : Option ℕ → Str → LexPos
pos_behind fileid front = record {
  fileid = fileid;
  line = capped 65535 (newlines front);
  column = capped 255 (characters (last_line front));
  offset = length front;
}

abbrev pub origin : Option ℕ → LexPos
origin fileid = record { fileid = fileid; line = 0; column = 0; offset = 0 }

origin-IsCapped : (fileid : Option ℕ) → IsCapped (origin fileid)
origin-IsCapped fileid = record {
  line_le = omega arith;
  column_le = omega arith;
  offset_le = omega arith;
}

zero_add : (n : ℕ) → 0 + n ≡ n
zero_add n = omega arith

column_from_start : (s : Str) → column_behind 0 s ≡ capped 255 (characters (last_line s))
column_from_start s = elim (Bool-cases (newlines s == 0)) [
  | inl one_line ↦
      rw (one_line, last_line_whole s one_line) (ap (capped 255) (zero_add (characters s)))
  | inr more ↦ rw more refl
]

same_pos :
    {p q : LexPos}
    → p.fileid ≡ q.fileid
    → p.line ≡ q.line
    → p.column ≡ q.column
    → p.offset ≡ q.offset
    → p ≡ q
same_pos f l c o i = record { fileid = f i; line = l i; column = c i; offset = o i }

-- Going over bytes from the start of a file leads to their position.
pub advance_all-pos_behind :
    (fileid : Option ℕ) (front : Str)
    → length front ≤ 4294967295
    → advance_all front (origin fileid) ≡ pos_behind fileid front
advance_all-pos_behind fileid front h =
    let start = origin-IsCapped fileid in
    same_pos (advance_all_fileid front (origin fileid))
      (advance_all_line front (origin fileid) start ∙ ap (capped 65535) (zero_add (newlines front)))
      (advance_all_column front (origin fileid) start ∙ column_from_start front)
      (advance_all_offset front (origin fileid) (omega (arith, h)) ∙ omega arith)
