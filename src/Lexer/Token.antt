-- ===== src/Lexer/Token.antt =====
-- token.rs: the tokens and how they are printed. A text is its bytes; the keywords have the ending
-- `_kw`, since most of them are reserved words here.
use Prim.Native.Char.{code}
use nitrate.Prelude.{ℕ, String, Bool, true, false, [], ◌∷◌}
use nitrate.Mangle.Bytes.{Str}

-- A native text by the codes of its characters.
abbrev pub codes : String → Str
codes String.[] = []
codes (String.◌∷◌ c s) = code c ∷ codes s

pub data IntegerKind : Type 0 where
  bin oct dec hex : IntegerKind

pub record Integer : Type 0 where
  pub value : ℕ
  pub kind : IntegerKind

pub data CommentKind : Type 0 where
  single_line multi_line : CommentKind

pub record Comment : Type 0 where
  pub text : Str
  pub kind : CommentKind

-- A float is what the standard library parses.
pub data Token (F : Type 0) : Type 0 where
  name : Str → Token F
  integer : Integer → Token F
  float : F → Token F
  string : Str → Token F
  bstring : Str → Token F
  comment : Comment → Token F
  horizontal_tab new_line vertical_tab form_feed carriage_return space : Token F
  single_quote semi comma dot open_paren close_paren open_brace close_brace : Token F
  open_bracket close_bracket at tilde question colon dollar eq bang lt gt minus and or : Token F
  plus star caret percent slash : Token F
  let_kw var_kw fn_kw enum_kw struct_kw class_kw union_kw contract_kw trait_kw impl_kw : Token F
  type_kw scope_kw use_kw mod_kw safe_kw unsafe_kw promise_kw static_kw mut_kw const_kw : Token F
  poly_kw iso_kw pub_kw sec_kw pro_kw if_kw else_kw for_kw in_kw while_kw do_kw : Token F
  match_kw break_kw continue_kw ret_kw async_kw await_kw extern_kw asm_kw null_kw : Token F
  true_kw false_kw bool_kw u8_kw u16_kw u32_kw u64_kw u128_kw usize_kw i8_kw i16_kw : Token F
  i32_kw i64_kw i128_kw f8_kw f16_kw f32_kw f64_kw f128_kw opaque_kw as_kw typeof_kw : Token F
  self_type self_keyword super_kw crate_kw : Token F
  eof : Token F

module _ {F : Type 0} where
  unfoldable pub is_trivia : Token F → Bool
  is_trivia space = true
  is_trivia horizontal_tab = true
  is_trivia new_line = true
  is_trivia vertical_tab = true
  is_trivia form_feed = true
  is_trivia carriage_return = true
  is_trivia (comment _) = true
  is_trivia _ = false
