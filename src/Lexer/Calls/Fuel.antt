-- ===== src/Lexer/Calls/Fuel.antt =====
-- The fuel of `parse_next`.
use nitrate.Prelude.{
  ℕ, zero, suc, ◌<◌, ◌≡◌, refl, Bool, true, false, ◌&&◌, not, Option, length, Bool-cases, inl, inr,
  arith,
}
use nitrate.Mangle.Bytes.{Str}
use nitrate.Lexer.Token.{Token, is_trivia, eof}
use nitrate.Lexer.Cursor.{Cursor}
use nitrate.Lexer.Scan.{parse_token}
use nitrate.Lexer.Stream.{is_end, parse_next}
use nitrate.Lexer.Reads.Shrinks.{parse_token_shrinks}

module _ {F : Type 0} (parse_f64 : Str → Option F) where
  trivia_not_end : (t : Token F) → is_trivia t ≡ true → is_end t ≡ false
  unfolding is_trivia
  trivia_not_end eof h = absurd (cc h)
  trivia_not_end _ h = refl

  skips_trivia :
      (trivia : Bool) (t : Token F) → (not trivia && is_trivia t) ≡ true → is_end t ≡ false
  skips_trivia false t h = trivia_not_end t h
  skips_trivia true t h = absurd (cc h)

  -- With more fuel than there are bytes, it makes no difference how much more it is: the fuel does not
  -- run out.
  pub parse_next_fuel :
      (f g : ℕ) (trivia : Bool) (c : Cursor)
      → length c.input < f
      → length c.input < g
      → parse_next parse_f64 f trivia c ≡ parse_next parse_f64 g trivia c
  unfolding parse_next
  parse_next_fuel zero g trivia c h k = absurd (omega arith)
  parse_next_fuel (suc f) zero trivia c h k = absurd (omega arith)
  parse_next_fuel (suc f) (suc g) trivia c h k =
      let (t, d) = parse_token parse_f64 c in
      elim (Bool-cases (not trivia && is_trivia t)) [
        | inl skips ↦
            let less = parse_token_shrinks parse_f64 c (skips_trivia trivia t skips) in
            rw skips
              (parse_next_fuel f g trivia d (omega (arith, less, h)) (omega (arith, less, k)))
        | inr stays ↦ rw stays refl
      ]

  pub parse_next_shrinks :
      (f : ℕ) (trivia : Bool) (c : Cursor)
      → length c.input < f
      → is_end (parse_next parse_f64 f trivia c).0.token ≡ false
      → length (parse_next parse_f64 f trivia c).1.input < length c.input
  unfolding parse_next
  parse_next_shrinks zero trivia c h e = absurd (omega arith)
  parse_next_shrinks (suc f) trivia c h e =
      let (t, d) = parse_token parse_f64 c in
      elim (Bool-cases (not trivia && is_trivia t)) [
        | inl skips ↦
            let less = parse_token_shrinks parse_f64 c (skips_trivia trivia t skips) in
            let more = parse_next_shrinks f trivia d (omega (arith, less, h)) (rw skips at e) in
            rw skips (omega (arith, less, more))
        | inr stays ↦ rw stays (parse_token_shrinks parse_f64 c (rw stays at e))
      ]
