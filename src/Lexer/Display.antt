-- ===== src/Lexer/Display.antt =====
-- How token.rs prints tokens.
use nitrate.Prelude.{
  zero, suc, ltb, ℕ, ◌/◌, ◌%◌, Bool, ◌&&◌, Option, none, some, [], ◌∷◌, ◌++◌, leb, ◌==◌,
  if◌then◌else◌,
}
use nitrate.Mangle.Bytes.{Str}
use nitrate.Mangle.Hex.{hex_digit}
use nitrate.Lexer.Number.{base_of}
use nitrate.Lexer.Token.{
  Integer, IntegerKind, bin, oct, dec, hex, Token, codes, horizontal_tab, new_line, vertical_tab,
  form_feed, carriage_return, space, single_quote, semi, comma, dot, open_paren, close_paren,
  open_brace, close_brace, open_bracket, close_bracket, at, tilde, question, colon, dollar, eq,
  bang, lt, gt, minus, and, or, plus, star, slash, caret, percent, let_kw, var_kw, fn_kw, enum_kw,
  struct_kw, class_kw, union_kw, contract_kw, trait_kw, impl_kw, type_kw, scope_kw, use_kw, mod_kw,
  safe_kw, unsafe_kw, promise_kw, static_kw, mut_kw, const_kw, poly_kw, iso_kw, pub_kw, sec_kw,
  pro_kw, if_kw, else_kw, for_kw, in_kw, while_kw, do_kw, match_kw, break_kw, continue_kw, ret_kw,
  async_kw, await_kw, asm_kw, null_kw, true_kw, false_kw, bool_kw, u8_kw, u16_kw, u32_kw, u64_kw,
  u128_kw, usize_kw, i8_kw, i16_kw, i32_kw, i64_kw, i128_kw, f8_kw, f16_kw, f32_kw, f64_kw, f128_kw,
  opaque_kw, as_kw, typeof_kw, self_type, self_keyword, super_kw, crate_kw, extern_kw,
}

-- A byte of `escape_bstring`.
unfoldable pub escape_byte : ℕ → Str
unfolding hex_digit
escape_byte c =
    if c == 0
    then codes "\\0"
    else if c == b'\\'
    then codes "\\\\"
    else if c == b'"'
    then codes "\\\""
    else if c == 7
    then codes "\\a"
    else if c == 8
    then codes "\\b"
    else if c == 9
    then codes "\\t"
    else if c == 10
    then codes "\\n"
    else if c == 0x0b
    then codes "\\v"
    else if c == 0x0c
    then codes "\\f"
    else if c == 13
    then codes "\\r"
    else if leb 0x20 c && leb c 0x7E
    then c ∷ []
    else b'\\' ∷ b'x' ∷ hex_digit (c / 16) ∷ hex_digit (c % 16) ∷ []

unfoldable pub escape_bytes_of : Str → Str
unfolding escape_byte
escape_bytes_of [] = []
escape_bytes_of (c ∷ s) = escape_byte c ++ escape_bytes_of s

unfoldable pub escape_bstring : Str → Bool → Str
unfolding escape_bytes_of
escape_bstring s quotes =
    if quotes then b'"' ∷ (escape_bytes_of s ++ b'"' ∷ []) else escape_bytes_of s

-- `{:b}`, `{:o}`, `{}` and `{:x}`; the fuel is the number, which has no more digits than that, and
-- one.
unfoldable pub digits_in : IntegerKind → ℕ → ℕ → Str
unfolding hex_digit base_of
digits_in kind zero n = hex_digit n ∷ []
digits_in kind (suc fuel) n =
    let more = digits_in kind fuel (n / base_of kind) ++ hex_digit (n % base_of kind) ∷ [] in
    if ltb n (base_of kind) then hex_digit n ∷ [] else more

unfoldable pub display_prefix : IntegerKind → Str
display_prefix bin = b'0' ∷ b'b' ∷ []
display_prefix oct = b'0' ∷ b'o' ∷ []
display_prefix dec = []
display_prefix hex = b'0' ∷ b'x' ∷ []

unfoldable pub display_integer : Integer → Str
unfolding digits_in display_prefix
display_integer i = display_prefix i.kind ++ digits_in i.kind i.value i.value

module _ {F : Type 0} where
  -- The tokens that are always printed the same.
  unfoldable pub fixed_text : Token F → Option Str
  fixed_text horizontal_tab = some (9 ∷ [])
  fixed_text new_line = some (10 ∷ [])
  fixed_text vertical_tab = some (0x0b ∷ [])
  fixed_text form_feed = some (0x0c ∷ [])
  fixed_text carriage_return = some (13 ∷ [])
  fixed_text space = some (codes " ")
  fixed_text single_quote = some (codes "'")
  fixed_text semi = some (codes ";")
  fixed_text comma = some (codes ",")
  fixed_text dot = some (codes ".")
  fixed_text open_paren = some (codes "(")
  fixed_text close_paren = some (codes ")")
  fixed_text open_brace = some (codes "{")
  fixed_text close_brace = some (codes "}")
  fixed_text open_bracket = some (codes "[")
  fixed_text close_bracket = some (codes "]")
  fixed_text at = some (codes "@")
  fixed_text tilde = some (codes "~")
  fixed_text question = some (codes "?")
  fixed_text colon = some (codes ":")
  fixed_text dollar = some (codes "$")
  fixed_text eq = some (codes "=")
  fixed_text bang = some (codes "!")
  fixed_text lt = some (codes "<")
  fixed_text gt = some (codes ">")
  fixed_text minus = some (codes "-")
  fixed_text and = some (codes "&")
  fixed_text or = some (codes "|")
  fixed_text plus = some (codes "+")
  fixed_text star = some (codes "*")
  fixed_text slash = some (codes "/")
  fixed_text caret = some (codes "^")
  fixed_text percent = some (codes "%")
  fixed_text let_kw = some (codes "let")
  fixed_text var_kw = some (codes "var")
  fixed_text fn_kw = some (codes "fn")
  fixed_text enum_kw = some (codes "enum")
  fixed_text struct_kw = some (codes "struct")
  fixed_text class_kw = some (codes "class")
  fixed_text union_kw = some (codes "union")
  fixed_text contract_kw = some (codes "contract")
  fixed_text trait_kw = some (codes "trait")
  fixed_text impl_kw = some (codes "impl")
  fixed_text type_kw = some (codes "type")
  fixed_text scope_kw = some (codes "scope")
  fixed_text use_kw = some (codes "use")
  fixed_text mod_kw = some (codes "mod")
  fixed_text safe_kw = some (codes "safe")
  fixed_text unsafe_kw = some (codes "unsafe")
  fixed_text promise_kw = some (codes "promise")
  fixed_text static_kw = some (codes "static")
  fixed_text mut_kw = some (codes "mut")
  fixed_text const_kw = some (codes "const")
  fixed_text poly_kw = some (codes "poly")
  fixed_text iso_kw = some (codes "iso")
  fixed_text pub_kw = some (codes "pub")
  fixed_text sec_kw = some (codes "sec")
  fixed_text pro_kw = some (codes "pro")
  fixed_text if_kw = some (codes "if")
  fixed_text else_kw = some (codes "else")
  fixed_text for_kw = some (codes "for")
  fixed_text in_kw = some (codes "in")
  fixed_text while_kw = some (codes "while")
  fixed_text do_kw = some (codes "do")
  fixed_text match_kw = some (codes "match")
  fixed_text break_kw = some (codes "break")
  fixed_text continue_kw = some (codes "continue")
  fixed_text ret_kw = some (codes "ret")
  fixed_text async_kw = some (codes "async")
  fixed_text await_kw = some (codes "await")
  fixed_text asm_kw = some (codes "asm")
  fixed_text null_kw = some (codes "null")
  fixed_text true_kw = some (codes "true")
  fixed_text false_kw = some (codes "false")
  fixed_text bool_kw = some (codes "bool")
  fixed_text u8_kw = some (codes "u8")
  fixed_text u16_kw = some (codes "u16")
  fixed_text u32_kw = some (codes "u32")
  fixed_text u64_kw = some (codes "u64")
  fixed_text u128_kw = some (codes "u128")
  fixed_text usize_kw = some (codes "usize")
  fixed_text i8_kw = some (codes "i8")
  fixed_text i16_kw = some (codes "i16")
  fixed_text i32_kw = some (codes "i32")
  fixed_text i64_kw = some (codes "i64")
  fixed_text i128_kw = some (codes "i128")
  fixed_text f8_kw = some (codes "f8")
  fixed_text f16_kw = some (codes "f16")
  fixed_text f32_kw = some (codes "f32")
  fixed_text f64_kw = some (codes "f64")
  fixed_text f128_kw = some (codes "f128")
  fixed_text opaque_kw = some (codes "opaque")
  fixed_text as_kw = some (codes "as")
  fixed_text typeof_kw = some (codes "typeof")
  fixed_text self_type = some (codes "Self")
  fixed_text self_keyword = some (codes "self")
  fixed_text super_kw = some (codes "super")
  fixed_text crate_kw = some (codes "crate")
  fixed_text extern_kw = some (codes "extern")
  fixed_text _ = none
