-- ===== src/Lexer/Words.antt =====
-- The tokens of fixed spelling in lex.rs: the tables of keywords and of single bytes.
use nitrate.Prelude.{
  ℕ, String, Bool, true, false, ◌&&◌, Option, none, some, List, [], ◌∷◌, ◌==◌, if◌then◌else◌,
}
use nitrate.Mangle.Bytes.{Str}
use nitrate.Lexer.Token.{
  Token, codes, let_kw, var_kw, fn_kw, enum_kw, struct_kw, class_kw, union_kw, contract_kw,
  trait_kw, impl_kw, type_kw, scope_kw, use_kw, mod_kw, safe_kw, unsafe_kw, promise_kw, static_kw,
  mut_kw, const_kw, poly_kw, iso_kw, pub_kw, sec_kw, pro_kw, if_kw, else_kw, for_kw, in_kw,
  while_kw, do_kw, match_kw, break_kw, continue_kw, ret_kw, async_kw, await_kw, extern_kw, asm_kw,
  null_kw, true_kw, false_kw, bool_kw, u8_kw, u16_kw, u32_kw, u64_kw, u128_kw, usize_kw, i8_kw,
  i16_kw, i32_kw, i64_kw, i128_kw, f8_kw, f16_kw, f32_kw, f64_kw, f128_kw, opaque_kw, as_kw,
  typeof_kw, self_type, self_keyword, super_kw, crate_kw, single_quote, semi, comma, dot,
  open_paren, close_paren, open_brace, close_brace, open_bracket, close_bracket, at, tilde,
  question, colon, dollar, eq, bang, lt, gt, minus, and, or, plus, star, caret, percent,
  horizontal_tab, new_line, vertical_tab, form_feed, carriage_return, space,
}

abbrev pub same_text : Str → Str → Bool
same_text [] [] = true
same_text [] (_ ∷ _) = false
same_text (_ ∷ _) [] = false
same_text (a ∷ s) (b ∷ t) = a == b && same_text s t

-- The first of some texts that is the given one.
abbrev pub select {ℓ} : {A : Type ℓ} → Str → List (String × A) → Option A
select s [] = none
select s ((k, a) ∷ table) =
    let later = select s table in if same_text (codes k) s then some a else later

module _ {F : Type 0} where
  -- The words in the order of the match.
  abbrev pub keywords : List (String × Token F)
  keywords =
      ("let", let_kw)
      ∷ ("var", var_kw)
      ∷ ("fn", fn_kw)
      ∷ ("enum", enum_kw)
      ∷ ("struct", struct_kw)
      ∷ ("class", class_kw)
      ∷ ("union", union_kw)
      ∷ ("contract", contract_kw)
      ∷ ("trait", trait_kw)
      ∷ ("impl", impl_kw)
      ∷ ("type", type_kw)
      ∷ ("scope", scope_kw)
      ∷ ("use", use_kw)
      ∷ ("mod", mod_kw)
      ∷ ("safe", safe_kw)
      ∷ ("unsafe", unsafe_kw)
      ∷ ("promise", promise_kw)
      ∷ ("static", static_kw)
      ∷ ("mut", mut_kw)
      ∷ ("const", const_kw)
      ∷ ("poly", poly_kw)
      ∷ ("iso", iso_kw)
      ∷ ("pub", pub_kw)
      ∷ ("sec", sec_kw)
      ∷ ("pro", pro_kw)
      ∷ ("if", if_kw)
      ∷ ("else", else_kw)
      ∷ ("for", for_kw)
      ∷ ("in", in_kw)
      ∷ ("while", while_kw)
      ∷ ("do", do_kw)
      ∷ ("match", match_kw)
      ∷ ("break", break_kw)
      ∷ ("continue", continue_kw)
      ∷ ("ret", ret_kw)
      ∷ ("async", async_kw)
      ∷ ("await", await_kw)
      ∷ ("extern", extern_kw)
      ∷ ("asm", asm_kw)
      ∷ ("null", null_kw)
      ∷ ("true", true_kw)
      ∷ ("false", false_kw)
      ∷ ("bool", bool_kw)
      ∷ ("u8", u8_kw)
      ∷ ("u16", u16_kw)
      ∷ ("u32", u32_kw)
      ∷ ("u64", u64_kw)
      ∷ ("u128", u128_kw)
      ∷ ("usize", usize_kw)
      ∷ ("i8", i8_kw)
      ∷ ("i16", i16_kw)
      ∷ ("i32", i32_kw)
      ∷ ("i64", i64_kw)
      ∷ ("i128", i128_kw)
      ∷ ("f8", f8_kw)
      ∷ ("f16", f16_kw)
      ∷ ("f32", f32_kw)
      ∷ ("f64", f64_kw)
      ∷ ("f128", f128_kw)
      ∷ ("opaque", opaque_kw)
      ∷ ("as", as_kw)
      ∷ ("typeof", typeof_kw)
      ∷ ("Self", self_type)
      ∷ ("self", self_keyword)
      ∷ ("super", super_kw)
      ∷ ("crate", crate_kw)
      ∷ []

  unfoldable pub keyword : Str → Option (Token F)
  keyword name = select name keywords

  unfoldable pub single_byte : ℕ → Option (Token F)
  single_byte b =
      if b == b'\''
      then some single_quote
      else if b == b';'
      then some semi
      else if b == b','
      then some comma
      else if b == b'.'
      then some dot
      else if b == b'('
      then some open_paren
      else if b == b')'
      then some close_paren
      else if b == b'{'
      then some open_brace
      else if b == b'}'
      then some close_brace
      else if b == b'['
      then some open_bracket
      else if b == b']'
      then some close_bracket
      else if b == b'@'
      then some at
      else if b == b'~'
      then some tilde
      else if b == b'?'
      then some question
      else if b == b':'
      then some colon
      else if b == b'$'
      then some dollar
      else if b == b'='
      then some eq
      else if b == b'!'
      then some bang
      else if b == b'<'
      then some lt
      else if b == b'>'
      then some gt
      else if b == b'-'
      then some minus
      else if b == b'&'
      then some and
      else if b == b'|'
      then some or
      else if b == b'+'
      then some plus
      else if b == b'*'
      then some star
      else if b == b'^'
      then some caret
      else if b == b'%'
      then some percent
      else if b == 9
      then some horizontal_tab
      else if b == 10
      then some new_line
      else if b == 0x0b
      then some vertical_tab
      else if b == 0x0c
      then some form_feed
      else if b == 13
      then some carriage_return
      else if b == b' '
      then some space
      else none
