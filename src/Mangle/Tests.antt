-- ===== src/Mangle/Tests.antt =====
-- Mangled paths, and the theorems on them. The coder of the tests knows one text by heart.
mod Name
use nitrate.Prelude.{
  ℕ, ◌*◌, ◌^◌, ◌<◌, ◌≡◌, refl, ap, sym, inl, inr, Bool, true, false, ◌&&◌, Option, none, some, [],
  ◌∷◌, ◌++◌, ◌==◌, if◌then◌else◌, length, replicate, all, Bool-cases, ==_iff, and_true, arith,
}
use nitrate.Mangle.Bytes.{Str, is_utf8, from_utf8, split_at_first, split_exact}
use nitrate.Mangle.Decimal.{decimal, digits_from, parse_usize}
use nitrate.Mangle.Hex.{to_hex, from_hex}
use nitrate.Mangle.Base63.{encode_c99_base63, decode_c99_base63}
use nitrate.Mangle.Base63.RoundTrip.{decode_c99_base63-encode_c99_base63}
use nitrate.Mangle.Segment.{
  ok, err, panic, is_c99_identifier, plain_segment, mangle_segment, demangle_segment,
}
use nitrate.Mangle.Path.{split, mangle_string, demangle_string}
use nitrate.Mangle.Path.RoundTrip.{IsReadable, AreReadable, demangle_string-mangle_string}

abbrev same : Str → Str → Bool
same [] [] = true
same [] (_ ∷ _) = false
same (_ ∷ _) [] = false
same (a ∷ s) (b ∷ t) = (a == b) && same s t

same→≡ : (s t : Str) → same s t ≡ true → s ≡ t
same→≡ [] [] h = refl
same→≡ [] (_ ∷ _) h = absurd (ground arith)
same→≡ (_ ∷ _) [] h = absurd (ground arith)
same→≡ (a ∷ s) (b ∷ t) h =
    let (here, there) = and_true (a == b) (same s t) h in
    let first : a ≡ b = (==_iff a b).0 here in let rest = same→≡ s t there in cc (first, rest)

-- 63 letters, and the same behind their number.
abbrev long_name : Str
long_name = replicate 63 b'a'

abbrev long_text : Str
long_text = b'6' ∷ b'3' ∷ long_name

abbrev pub deflate : Str → Str
deflate s = if same s long_text then 5 ∷ [] else 1 ∷ s

abbrev pub inflate : Str → Option Str
inflate [] = none
inflate (c ∷ s) = if c == 5 then some long_text else some s

pub inflate-deflate : (s : Str) → inflate (deflate s) ≡ some s
inflate-deflate s = elim (Bool-cases (same s long_text)) [
  | inl e ↦ let q = same→≡ s long_text e in rw e (ap some (sym q))
  | inr other ↦ rw other refl
]

-- a::b, and the long name with a lambda behind it
abbrev pub short_path : Str
short_path = b'a' ∷ b':' ∷ b':' ∷ b'b' ∷ []

abbrev pub long_path : Str
long_path = long_name ++ b':' ∷ b':' ∷ 206 ∷ 187 ∷ []

short_mangled :
    mangle_string deflate inflate short_path ≡ b'2' ∷ b'_' ∷ b'1' ∷ b'a' ∷ b'1' ∷ b'b' ∷ []
unfolding mangle_string split decimal digits_from
short_mangled = refl

-- z1_F, x4_cebb
long_mangled :
    mangle_string deflate inflate long_path
    ≡ b'2' ∷ b'_' ∷ b'z' ∷ b'1' ∷ b'_' ∷ b'F' ∷ b'x' ∷ b'4' ∷ b'_' ∷ b'c' ∷ b'e' ∷ b'b' ∷ b'b' ∷ []
unfolding mangle_string split decimal digits_from encode_c99_base63 to_hex
long_mangled = refl

long_demangled :
    demangle_string deflate inflate 2 (
      b'2' ∷ b'_' ∷ b'z' ∷ b'1' ∷ b'_' ∷ b'F' ∷ b'x' ∷ b'4' ∷ b'_' ∷ b'c' ∷ b'e' ∷ b'b' ∷ b'b'
      ∷ b'd' ∷ [])
    ≡ ok long_path (b'd' ∷ [])
unfolding demangle_string split_at_first from_utf8 parse_usize split_exact decode_c99_base63
    from_hex
long_demangled = refl

-- The count asks for more memory than there is; the empty name is no name.
demangle_errors :
    (demangle_string deflate inflate 2 (decimal (2 ^ 60) ++ b'_' ∷ []) ≡ panic)
    × (demangle_string deflate inflate 2 (mangle_string deflate inflate []) ≡ err)
unfolding demangle_string mangle_string decimal split_at_first from_utf8 parse_usize
demangle_errors = (refl, refl)

-- A name of one letter is readable.
letter-IsReadable :
    (c : ℕ)
    → plain_segment (c ∷ []) ≡ b'1' ∷ c ∷ []
    → mangle_segment deflate inflate (c ∷ []) ≡ b'1' ∷ c ∷ []
    → c < 128
    → is_utf8 (c ∷ []) ≡ true
    → IsReadable deflate inflate (c ∷ [])
letter-IsReadable c p m l u = record {
  first = c;
  others = [];
  shape = refl;
  valid = u;
  plain_fits = rw p (omega arith);
  mangled_fits = rw m (omega arith);
  lead = 1;
  tail = b'1' ∷ c ∷ [];
  deflated = rw p refl;
  lead_pos = omega arith;
  bytes = ground arith;
}

pub short_path-AreReadable : AreReadable deflate inflate (split short_path)
unfolding AreReadable split mangle_segment decimal digits_from is_utf8
short_path-AreReadable = (
  letter-IsReadable b'a' refl refl (omega arith) refl,
  (letter-IsReadable b'b' refl refl (omega arith) refl, tt),
)

pub short_path_fits : length (split short_path) * 24 < 2 ^ 63
unfolding split
short_path_fits = omega arith

decode_c99_base63-encode_c99_base63_example :
    decode_c99_base63 (encode_c99_base63 (5 ∷ 0 ∷ 255 ∷ [])) ≡ some (5 ∷ 0 ∷ 255 ∷ [])
decode_c99_base63-encode_c99_base63_example =
    decode_c99_base63-encode_c99_base63 5 (0 ∷ 255 ∷ []) (omega arith) refl

demangle_string-mangle_string_example :
    demangle_string deflate inflate 2 (mangle_string deflate inflate short_path ++ b'd' ∷ [])
    ≡ ok short_path (b'd' ∷ [])
demangle_string-mangle_string_example =
    demangle_string-mangle_string deflate inflate 0 short_path (b'd' ∷ []) inflate-deflate
      short_path-AreReadable short_path_fits

letters_identifier : is_c99_identifier (b'a' ∷ b'b' ∷ []) ≡ true
unfolding is_c99_identifier
letters_identifier = refl
