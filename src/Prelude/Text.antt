-- ===== src/Prelude/Text.antt =====
-- Decimal numbers in texts: what `format!` prints for a `usize` and what `parse::<usize>` reads.
use Prim.Native.Nat.{ℕ, zero, suc, ◌+◌, ◌-◌, ◌*◌, ◌/◌, ◌%◌, ◌^◌}
use Prim.Native.Char.{Char, code}
use Prim.Native.String.{String, ◌++◌}
use mathlib.Core.Bool.{Bool, ◌&&◌}
use mathlib.Core.Option.{Option, none, some}
use nitrate.Prelude.Tests.{if◌then◌else◌, leb, ltb, ◌==◌}

digit : ℕ → String
digit d =
    if d == 0
    then "0"
    else if d == 1
    then "1"
    else if d == 2
    then "2"
    else if d == 3
    then "3"
    else if d == 4
    then "4"
    else if d == 5
    then "5"
    else if d == 6
    then "6"
    else if d == 7
    then "7"
    else if d == 8
    then "8"
    else "9"

-- The fuel is the number itself, which has no more digits than that, and one.
digits_of : ℕ → ℕ → String
digits_of zero n = digit n
digits_of (suc fuel) n =
    let more = digits_of fuel (n / 10) ++ digit (n % 10) in if ltb n 10 then digit n else more

unfoldable pub print_usize : ℕ → String
unfolding digits_of digit
print_usize n = digits_of n n

is_digit : Char → Bool
is_digit c = leb b'0' (code c) && leb (code c) b'9'

-- The value read so far goes on to the left; `none` at any other character or past 64 bits.
parse_digits : ℕ → String → Option ℕ
parse_digits acc String.[] = some acc
parse_digits acc (String.◌∷◌ c s) =
    let acc' = acc * 10 + (code c - b'0') in
    let rest = parse_digits acc' s in if is_digit c && ltb acc' (2 ^ 64) then rest else none

parse_nonempty : String → Option ℕ
parse_nonempty String.[] = none
parse_nonempty s = parse_digits 0 s

unfoldable pub parse_usize : String → Option ℕ
unfolding parse_nonempty parse_digits is_digit
parse_usize String.[] = none
parse_usize (String.◌∷◌ c s) =
    if code c == b'+' then parse_nonempty s else parse_digits 0 (String.◌∷◌ c s)
