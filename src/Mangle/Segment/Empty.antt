-- ===== src/Mangle/Segment/Empty.antt =====
-- The empty segment is not read back.
use mathlib.Core.List.{append_assoc}
use nitrate.Prelude.{ℕ, suc, ◌^◌, ◌<◌, ◌≡◌, refl, ◌∙◌, true, Option, [], ◌∷◌, ◌++◌, length, all}
use nitrate.Mangle.Bytes.{Str, is_ascii_digit, ascii-is_utf8}
use nitrate.Mangle.Decimal.{decimal, decimal-all, parse_usize-zero}
use nitrate.Mangle.Segment.{ok, is_c99_identifier, plain_segment, mangle_segment, demangle_segment}
use nitrate.Mangle.Segment.Plain.{demangle_identifier-digits}
use nitrate.Mangle.Segment.Shapes.{identifier-plain_segment, not_digit, identifier-ascii}
use nitrate.Mangle.Segment.RoundTrip.{demangle_segment-digit}

module _ (deflate : Str → Str) (inflate : Str → Option Str) where
  -- An empty segment before an identifier is lost: the identifier is read in its place.
  mangle_segment_empty :
      (f c : ℕ) (s rest : Str)
      → is_c99_identifier (c ∷ s) ≡ true
      → length (c ∷ s) < 2 ^ 64
      → demangle_segment deflate inflate
          (suc f)
          (mangle_segment deflate inflate [] ++ (plain_segment (c ∷ s) ++ rest))
        ≡ ok (c ∷ s) rest
  unfolding mangle_segment
  mangle_segment_empty f c s rest h l =
      let n = length (c ∷ s) in
      let digits : all is_ascii_digit (b'0' ∷ decimal n) ≡ true = decimal-all n in
      rw (identifier-plain_segment (c ∷ s) h, append_assoc)
        (demangle_segment-digit deflate inflate f b'0' (decimal n ++ (c ∷ s ++ rest)) refl
          ∙ demangle_identifier-digits (b'0' ∷ decimal n) c s rest digits (parse_usize-zero n l)
              (ascii-is_utf8 (c ∷ s) (identifier-ascii c s h)) (not_digit c s h))
