-- ===== src/Lexer/RoundTrip/Fixed.antt =====
-- The tokens of fixed spelling.
use nitrate.Prelude.{◌≡◌, refl, Option, none, some, [], subst}
use nitrate.Mangle.Bytes.{Str}
use nitrate.Lexer.Token.{
  Token, eof, name, integer, float, string, bstring, comment, horizontal_tab, new_line,
  vertical_tab, form_feed, carriage_return, space, single_quote, semi, comma, dot, open_paren,
  close_paren, open_brace, close_brace, open_bracket, close_bracket, at, tilde, question, colon,
  dollar, eq, bang, lt, gt, minus, and, or, plus, star, slash, caret, percent, let_kw, var_kw,
  fn_kw, enum_kw, struct_kw, class_kw, union_kw, contract_kw, trait_kw, impl_kw, type_kw, scope_kw,
  use_kw, mod_kw, safe_kw, unsafe_kw, promise_kw, static_kw, mut_kw, const_kw, poly_kw, iso_kw,
  pub_kw, sec_kw, pro_kw, if_kw, else_kw, for_kw, in_kw, while_kw, do_kw, match_kw, break_kw,
  continue_kw, ret_kw, async_kw, await_kw, asm_kw, null_kw, true_kw, false_kw, bool_kw, u8_kw,
  u16_kw, u32_kw, u64_kw, u128_kw, usize_kw, i8_kw, i16_kw, i32_kw, i64_kw, i128_kw, f8_kw, f16_kw,
  f32_kw, f64_kw, f128_kw, opaque_kw, as_kw, typeof_kw, self_type, self_keyword, super_kw, crate_kw,
  extern_kw,
}
use nitrate.Lexer.Cursor.{LexPos}
use nitrate.Lexer.Scan.{parse_token}
use nitrate.Lexer.Display.{fixed_text}
use nitrate.Lexer.Reads.{advance_all}

module _ {F : Type 0} (parse_f64 : Str → Option F) (pos : LexPos) where
  abbrev IsReadBack : Token F → Option Str → Type 0
  IsReadBack t none = Unit {0}
  IsReadBack t (some s) =
      parse_token parse_f64 (record { input = s; pos = pos })
      ≡ (t, record { input = []; pos = advance_all s pos })

  read_back : (t : Token F) → IsReadBack t (fixed_text t)
  unfolding fixed_text parse_token
  read_back horizontal_tab = refl
  read_back new_line = refl
  read_back vertical_tab = refl
  read_back form_feed = refl
  read_back carriage_return = refl
  read_back space = refl
  read_back single_quote = refl
  read_back semi = refl
  read_back comma = refl
  read_back dot = refl
  read_back open_paren = refl
  read_back close_paren = refl
  read_back open_brace = refl
  read_back close_brace = refl
  read_back open_bracket = refl
  read_back close_bracket = refl
  read_back at = refl
  read_back tilde = refl
  read_back question = refl
  read_back colon = refl
  read_back dollar = refl
  read_back eq = refl
  read_back bang = refl
  read_back lt = refl
  read_back gt = refl
  read_back minus = refl
  read_back and = refl
  read_back or = refl
  read_back plus = refl
  read_back star = refl
  read_back slash = refl
  read_back caret = refl
  read_back percent = refl
  read_back let_kw = refl
  read_back var_kw = refl
  read_back fn_kw = refl
  read_back enum_kw = refl
  read_back struct_kw = refl
  read_back class_kw = refl
  read_back union_kw = refl
  read_back contract_kw = refl
  read_back trait_kw = refl
  read_back impl_kw = refl
  read_back type_kw = refl
  read_back scope_kw = refl
  read_back use_kw = refl
  read_back mod_kw = refl
  read_back safe_kw = refl
  read_back unsafe_kw = refl
  read_back promise_kw = refl
  read_back static_kw = refl
  read_back mut_kw = refl
  read_back const_kw = refl
  read_back poly_kw = refl
  read_back iso_kw = refl
  read_back pub_kw = refl
  read_back sec_kw = refl
  read_back pro_kw = refl
  read_back if_kw = refl
  read_back else_kw = refl
  read_back for_kw = refl
  read_back in_kw = refl
  read_back while_kw = refl
  read_back do_kw = refl
  read_back match_kw = refl
  read_back break_kw = refl
  read_back continue_kw = refl
  read_back ret_kw = refl
  read_back async_kw = refl
  read_back await_kw = refl
  read_back asm_kw = refl
  read_back null_kw = refl
  read_back true_kw = refl
  read_back false_kw = refl
  read_back bool_kw = refl
  read_back u8_kw = refl
  read_back u16_kw = refl
  read_back u32_kw = refl
  read_back u64_kw = refl
  read_back u128_kw = refl
  read_back usize_kw = refl
  read_back i8_kw = refl
  read_back i16_kw = refl
  read_back i32_kw = refl
  read_back i64_kw = refl
  read_back i128_kw = refl
  read_back f8_kw = refl
  read_back f16_kw = refl
  read_back f32_kw = refl
  read_back f64_kw = refl
  read_back f128_kw = refl
  read_back opaque_kw = refl
  read_back as_kw = refl
  read_back typeof_kw = refl
  read_back self_type = refl
  read_back self_keyword = refl
  read_back super_kw = refl
  read_back crate_kw = refl
  read_back extern_kw = refl
  read_back (name s) = tt
  read_back (integer i) = tt
  read_back (float f) = tt
  read_back (string s) = tt
  read_back (bstring s) = tt
  read_back (comment c) = tt
  read_back eof = tt

  -- A keyword, a sign or a blank is read as itself from what is printed for it, to the end.
  pub parse_token-fixed_text :
      (t : Token F) (s : Str)
      → fixed_text t ≡ some s
      → parse_token parse_f64 (record { input = s; pos = pos })
        ≡ (t, record { input = []; pos = advance_all s pos })
  parse_token-fixed_text t s e = subst (IsReadBack t) e (read_back t)
