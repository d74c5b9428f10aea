-- ===== src/Lexer/RoundTrip/Digits.antt =====
-- The digits of an escape.
use nitrate.Prelude.{
  ℕ, suc, ◌≡◌, refl, ap, ◌∙◌, Bool, true, Option, none, some, [], ◌∷◌, ◌++◌, length, all, and_true,
}
use nitrate.Mangle.Bytes.{Str}
use nitrate.Lexer.Cursor.{pure, ◌>>=◌, LexPos, Cursor, peeked, skip_byte, peek_byte, advance}
use nitrate.Lexer.Escape.{read_digits}
use nitrate.Lexer.Reads.{advance_all}

module _ (p : ℕ → Bool) where
  one_digit :
      (n a : ℕ) (s : Str) (pos : LexPos)
      → p a ≡ true
      → read_digits (suc n) p (record { input = a ∷ s; pos = pos })
        ≡ (read_digits n p >>= λ bs. pure (a ∷ bs))
            (record { input = s; pos = advance_all (a ∷ []) pos })
  unfolding read_digits peeked skip_byte peek_byte advance
  one_digit n a s pos h = rw h refl

  -- All the digits are there.
  pub read_digits-all :
      (bs rest : Str) (pos : LexPos)
      → all p bs ≡ true
      → read_digits (length bs) p (record { input = bs ++ rest; pos = pos })
        ≡ (some bs, record { input = rest; pos = advance_all bs pos })
  unfolding read_digits
  read_digits-all [] rest pos h = refl
  read_digits-all (a ∷ bs) rest pos h =
      let (first, later) = and_true (p a) (all p bs) h in
      one_digit (length bs) a (bs ++ rest) pos first
      ∙ ap
          (λ (r : Option Str × Cursor). elim r.0 as (λ _. Option Str × Cursor) [
            | some bs ↦ (some (a ∷ bs), r.1)
            | none ↦ (none, r.1)
          ])
          (read_digits-all bs rest (advance_all (a ∷ []) pos) later)
