-- ===== src/Lexer/Tests.antt =====
-- The lexer on small sources, and the theorems on them.
use nitrate.Prelude.{
  false, true, ◌≡◌, ◌≤◌, ◌^◌, refl, Option, none, some, List, [], ◌∷◌, ◌++◌, map, length, ltb,
  if◌then◌else◌, arith,
}
use nitrate.Mangle.Bytes.{Str}
use nitrate.Lexer.Token.{
  Token, codes, name, integer, float, string, dec, hex, let_kw, eq, plus, semi, dot,
}
use nitrate.Lexer.Number.{radix_decode, base_of, digit_test}
use nitrate.Lexer.Scan.{parse_token, string_or_bytes}
use nitrate.Lexer.Stream.{
  AnnotatedToken, Lexer, start_of, new_lexer, set_trivia, next_tok, peek_tok, skip_tok, rewind,
  collect,
}
use nitrate.Lexer.Display.{fixed_text, escape_bstring, display_integer}
use nitrate.Lexer.Reads.{advance_all}
use nitrate.Lexer.Invariant.{IsLexer}
use nitrate.Lexer.Calls.{Call, peeks, nexts, none_yet, more, IsPlaced, Calls-IsPlaced}
use nitrate.Lexer.Calls.Peeks.{peek_tok-next_tok, starts, goes_on, rewind-next_tok}
use nitrate.Lexer.Calls.Ends.{IsTiling, collect_total, collect-IsTiling}
use nitrate.Lexer.RoundTrip.Integers.{parse_token-display_integer}
use nitrate.Lexer.RoundTrip.Strings.{parse_token-escape_bstring}
use nitrate.Lexer.RoundTrip.Fixed.{parse_token-fixed_text}
use nitrate.Lexer.RoundTrip.Escapes.{number_value, radix_decode-number_value}

-- Floats are kept as their text.
abbrev parse_f64 : Str → Option Str
parse_f64 s = some s

abbrev lexer : Str → Lexer Str
lexer s = record {
  source = s;
  internal_getc_pos = start_of none;
  current_pos = start_of none;
  preread_token = none;
  trivia_enabled = false;
}

abbrev tokens : Str → Option (List (Token Str))
tokens s = elim (collect parse_f64 20 (lexer s)) [
  | none ↦ none
  | some ts ↦ some (map (λ t. t.token) ts)
]

program :
    tokens (codes "let x = 0x2A + \"a\\x41\";// hi\n5..1.5")
    ≡ some (
        let_kw
        ∷ name (codes "x")
        ∷ eq
        ∷ integer (record { value = 42; kind = hex })
        ∷ plus
        ∷ string (codes "aA")
        ∷ semi
        ∷ integer (record { value = 5; kind = dec })
        ∷ dot
        ∷ dot
        ∷ float (codes "1.5")
        ∷ [])
unfolding collect
program = refl

-- A new lexer, and what it is after it has peeked and read on.
abbrev source : Str
source = codes "fn f"

abbrev first : Lexer Str
first = record {
  source = source;
  internal_getc_pos = start_of none;
  current_pos = start_of none;
  preread_token = none;
  trivia_enabled = true;
}

abbrev ahead : Lexer Str
ahead = (peek_tok parse_f64 first).1

abbrev behind : Lexer Str
behind = (next_tok parse_f64 ahead).1

peeks_first : Call parse_f64 none first ahead
peeks_first = peeks first ahead (peek_tok parse_f64 first).0 refl

reads_on : Call parse_f64 none ahead behind
reads_on = nexts ahead behind (next_tok parse_f64 ahead).0 refl

made : new_lexer parse_f64 source none ≡ some first
unfolding new_lexer
made = refl

Calls-IsPlaced_example :
    IsLexer none behind × IsPlaced parse_f64 behind.source none (next_tok parse_f64 behind).0
Calls-IsPlaced_example =
    Calls-IsPlaced parse_f64 source none first behind made
      (more (more none_yet peeks_first) reads_on)

peek_tok-next_tok_example :
    ((next_tok parse_f64 first).0 ≡ (peek_tok parse_f64 first).0)
    × (next_tok parse_f64 ahead ≡ next_tok parse_f64 first)
    × (peek_tok parse_f64 ahead ≡ ((peek_tok parse_f64 first).0, ahead))
    × (skip_tok parse_f64 ahead ≡ (next_tok parse_f64 first).1)
peek_tok-next_tok_example = peek_tok-next_tok parse_f64 first

rewind-next_tok_example :
    next_tok parse_f64 (rewind parse_f64 ahead.current_pos ahead) ≡ next_tok parse_f64 ahead
unfolding peek_tok
rewind-next_tok_example =
    rewind-next_tok parse_f64 source none first ahead made (goes_on starts peeks_first refl)

collect_total_example :
    (ts : List (AnnotatedToken Str)) × (collect parse_f64 5 (set_trivia parse_f64 false first)
      ≡ some ts)
    × (length ts ≤ 4)
collect_total_example = collect_total parse_f64 source none first false made

collect-IsTiling_example :
    (ts : List (AnnotatedToken Str)) × (collect parse_f64 5 first ≡ some ts)
    × IsTiling parse_f64 (start_of none) ts
collect-IsTiling_example = collect-IsTiling parse_f64 source none first made

parse_token-display_integer_example :
    parse_token parse_f64
      (record { input = display_integer (record { value = 255; kind = hex }); pos = start_of none })
    ≡ (
      integer (record { value = 255; kind = hex }),
      record {
        input = [];
        pos = advance_all (display_integer (record { value = 255; kind = hex })) (start_of none);
      },
    )
parse_token-display_integer_example =
    parse_token-display_integer parse_f64 (record { value = 255; kind = hex }) (start_of none)
      (omega arith)

parse_token-escape_bstring_example :
    parse_token parse_f64
      (record { input = escape_bstring (0 ∷ 255 ∷ 97 ∷ []) true ++ codes ";"; pos = start_of none })
    ≡ (
      string_or_bytes (0 ∷ 255 ∷ 97 ∷ []),
      record {
        input = codes ";";
        pos = advance_all (escape_bstring (0 ∷ 255 ∷ 97 ∷ []) true) (start_of none);
      },
    )
parse_token-escape_bstring_example =
    parse_token-escape_bstring Str parse_f64 (0 ∷ 255 ∷ 97 ∷ []) (codes ";") (start_of none) refl

parse_token-fixed_text_example :
    parse_token parse_f64 (record { input = codes "let"; pos = start_of none })
    ≡ (let_kw, record { input = []; pos = advance_all (codes "let") (start_of none) })
unfolding fixed_text
parse_token-fixed_text_example =
    parse_token-fixed_text parse_f64 (start_of none) let_kw (codes "let") refl

radix_decode-number_value_example : radix_decode 16 0 (codes "ff_f") ≡ (
    if ltb (number_value 16 0 (codes "ff_f")) (2 ^ 128)
    then some (number_value 16 0 (codes "ff_f"))
    else none)
unfolding base_of digit_test
radix_decode-number_value_example = radix_decode-number_value hex (codes "ff_f") refl
