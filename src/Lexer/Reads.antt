-- ===== src/Lexer/Reads.antt =====
-- Every part of the lexer only reads on: it takes some bytes off the front of the input, and the
-- position goes over those bytes.
pub mod Parts
pub mod Tokens
pub mod Shrinks
use mathlib.Core.List.{append_assoc}
use nitrate.Prelude.{
  ℕ, zero, suc, ◌≡◌, refl, sym, ap, ◌∙◌, Bool, true, false, Option, none, some, [], ◌∷◌, ◌++◌,
  if◌then◌else◌, Bool-cases, inl, inr,
}
use nitrate.Mangle.Bytes.{Str}
use nitrate.Lexer.Cursor.{
  LexPos, Cursor, Scan, pure, fail, ◌>>=◌, ◌>>◌, advance_pos, advance, peek_byte, read_from,
  read_while, peeked, skip_byte, bytes_while,
}

abbrev pub advance_all : Str → LexPos → LexPos
advance_all [] pos = pos
advance_all (b ∷ bs) pos = advance_all bs (advance_pos b pos)

pub advance_all-append :
    (xs ys : Str) (pos : LexPos) → advance_all (xs ++ ys) pos ≡ advance_all ys (advance_all xs pos)
advance_all-append [] ys pos = refl
advance_all-append (b ∷ xs) ys pos = advance_all-append xs ys (advance_pos b pos)

-- From one cursor to another, over some bytes.
pub record Reads (c c' : Cursor) : Type 0 where
  pub bytes : Str
  pub front : c.input ≡ bytes ++ c'.input
  pub moved : c'.pos ≡ advance_all bytes c.pos

pub Reads_refl : (c : Cursor) → Reads c c
Reads_refl c = record { bytes = []; front = refl; moved = refl }

pub Reads_trans : {a b c : Cursor} → Reads a b → Reads b c → Reads a c
Reads_trans {a} {b} {c} r s = record {
  bytes = r.bytes ++ s.bytes;
  front = r.front ∙ ap (λ i. r.bytes ++ i) s.front ∙ sym (append_assoc r.bytes s.bytes c.input);
  moved =
      s.moved ∙ ap (advance_all s.bytes) r.moved ∙ sym (advance_all-append r.bytes s.bytes a.pos);
}

pub record IsScan {A : Type 0} (m : Scan A) : Type 0 where
  pub reads : (c : Cursor) → Reads c (m c).1

module _ {A : Type 0} where
  pub pure-IsScan : (a : A) → IsScan (pure a)
  pure-IsScan a = record { reads = Reads_refl }

  pub fail-IsScan : IsScan (fail {A = A})
  fail-IsScan = record { reads = Reads_refl }

  pub if-IsScan : {m n : Scan A} (b : Bool) → IsScan m → IsScan n → IsScan (if b then m else n)
  if-IsScan true p q = p
  if-IsScan false p q = q

module _ {A B : Type 0} where
  pub bind-IsScan :
      {m : Scan A} {f : A → Scan B} → IsScan m → ((a : A) → IsScan (f a)) → IsScan (m >>= f)
  bind-IsScan {m} {f} p q = record {
    reads = λ c. Reads_trans (p.reads c) (on_result (m c).0 (m c).1);
  }
    where
      on_result :
          (r : Option A) (c : Cursor)
          → Reads c (elim r as (λ _. Option B × Cursor) [ some a ↦ f a c | none ↦ (none, c) ]).1
      on_result none c = Reads_refl c
      on_result (some a) c = (q a).reads c

  pub then-IsScan : {m : Scan A} {n : Scan B} → IsScan m → IsScan n → IsScan (m >> n)
  then-IsScan p q = bind-IsScan p (λ _. q)

pub advance-Reads : (c : Cursor) → Reads c (advance c)
unfolding advance
advance-Reads c = from c.input c.pos
  where
    from :
        (s : Str) (pos : LexPos)
        → Reads (record { input = s; pos = pos }) (advance (record { input = s; pos = pos }))
    from [] pos = Reads_refl _
    from (b ∷ s) pos = record { bytes = b ∷ []; front = refl; moved = refl }

pub peeked-IsScan : IsScan peeked
unfolding peeked
peeked-IsScan = record { reads = Reads_refl }

pub skip_byte-IsScan : IsScan skip_byte
unfolding skip_byte
skip_byte-IsScan = record { reads = advance-Reads }

read_from-Reads :
    (p : ℕ → Bool) (s : Str) (pos : LexPos)
    → Reads (record { input = s; pos = pos }) (read_from p s pos).1
unfolding read_from
read_from-Reads p [] pos = Reads_refl _
read_from-Reads p (b ∷ s) pos = elim (Bool-cases (p b)) [
  | inl goes ↦ rw goes (
      let r = read_from-Reads p s (advance_pos b pos) in
      record { bytes = b ∷ r.bytes; front = ap (λ i. b ∷ i) r.front; moved = r.moved })
  | inr stops ↦ rw stops (Reads_refl _)
]

pub bytes_while-IsScan : (p : ℕ → Bool) → IsScan (bytes_while p)
unfolding bytes_while read_while
bytes_while-IsScan p = record { reads = λ c. read_from-Reads p c.input c.pos }
