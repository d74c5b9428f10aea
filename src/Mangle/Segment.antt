-- ===== src/Mangle/Segment.antt =====
-- `mangle_segment` and `demangle_segment`, over the DEFLATE coder of flate2.
pub mod Plain
pub mod Shapes
pub mod RoundTrip
pub mod Empty
use nitrate.Prelude.{
  ℕ, zero, suc, ◌+◌, Bool, true, false, ◌&&◌, ◌||◌, not, Option, none, some, List, [], ◌∷◌, ◌++◌,
  ltb, ◌==◌, if◌then◌else◌, length, all,
}
use nitrate.Mangle.Bytes.{
  Str, ◌>>=◌, is_ascii_digit, is_ascii_alphabetic, is_word, from_utf8, split_at_first, split_exact,
}
use nitrate.Mangle.Decimal.{decimal, parse_unsigned, parse_usize}
use nitrate.Mangle.Hex.{to_hex, from_hex}
use nitrate.Mangle.Base63.{encode_c99_base63, decode_c99_base63}

unfoldable pub is_c99_identifier : Str → Bool
is_c99_identifier [] = false
is_c99_identifier (c ∷ s) = (is_ascii_alphabetic c || c == b'_') && all is_word s

-- An identifier behind its length, or hexadecimal digits behind theirs.
unfoldable pub plain_segment : Str → Str
unfolding is_c99_identifier
plain_segment s =
    let hex = to_hex s in
    if is_c99_identifier s
    then decimal (length s) ++ s
    else b'x' ∷ decimal (length hex) ++ b'_' ∷ hex

-- What a decoder returns: a value and what the cursor has left, or an error. The cursor is not
-- read after an error. A segment can hold a segment, to no bound that the code knows of.
pub data Demangled {ℓ} (A : Type ℓ) : Type ℓ where
  ok : A → Str → Demangled A
  err panic out_of_fuel : Demangled A

abbrev pub or_err {ℓ κ} : {A : Type ℓ} {B : Type κ} → Option A → (A → Demangled B) → Demangled B
or_err none f = err
or_err (some a) f = f a

-- A number of some bits, a `_`, and what is behind it.
unfoldable pub read_number : ℕ → Str → Option (ℕ × Str)
read_number bits s = split_at_first (λ c. c == b'_') s >>= λ (digits, rest).
    from_utf8 digits >>= λ text. parse_unsigned bits text >>= λ n. some (n, drop_one rest)
  where
    drop_one : Str → Str
    drop_one [] = []
    drop_one (_ ∷ s) = s

unfoldable pub read_prefix : Str → Option (ℕ × Str)
unfolding read_number
read_prefix s = read_number 64 s

unfoldable pub demangle_hex : Str → Demangled Str
unfolding read_prefix
demangle_hex s = or_err (read_prefix s) λ (n, rest).
    or_err (split_exact n rest)
      λ (hex, rest'). or_err (from_hex hex >>= from_utf8) λ segment. ok segment rest'

unfoldable pub demangle_identifier : Str → Demangled Str
demangle_identifier s = or_err (split_at_first (λ c. not (is_ascii_digit c)) s) λ (digits, rest).
    or_err (from_utf8 digits >>= parse_usize) λ n.
      or_err (split_exact n rest)
        λ (bytes, rest'). or_err (from_utf8 bytes) λ segment. ok segment rest'

-- The segment that was compressed has the rest of its own input dropped.
abbrev pub leave : Str → Demangled Str → Demangled Str
leave rest (ok segment _) = ok segment rest
leave rest err = err
leave rest panic = panic
leave rest out_of_fuel = out_of_fuel

module _ (deflate : Str → Str) (inflate : Str → Option Str) where
  unfoldable pub shorten : Str → Str
  shorten encoded =
      let compressed = deflate encoded in
      let base63 = encode_c99_base63 compressed in
      if ltb 64 (length encoded) && ltb (length compressed) (length encoded)
      then b'z' ∷ decimal (length base63) ++ b'_' ∷ base63
      else encoded

  unfoldable pub mangle_segment : Str → Str
  unfolding shorten plain_segment
  mangle_segment [] = b'0' ∷ []
  mangle_segment (c ∷ s) = shorten (plain_segment (c ∷ s))

  unfoldable pub demangle_segment : ℕ → Str → Demangled Str
  unfolding demangle_hex demangle_identifier read_prefix
  demangle_segment zero s = out_of_fuel
  demangle_segment (suc f) [] = err
  demangle_segment (suc f) (c ∷ s) =
      let compressed = or_err (read_prefix s) λ (n, rest).
        or_err (split_exact n rest) λ (bytes, rest').
          or_err (from_utf8 bytes >>= decode_c99_base63 >>= inflate >>= from_utf8)
            λ encoded. leave rest' (demangle_segment f encoded) in
      if c == b'z'
      then compressed
      else if c == b'x'
      then demangle_hex s
      else if is_ascii_digit c
      then demangle_identifier (c ∷ s)
      else err
