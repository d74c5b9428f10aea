-- ===== src/Mangle/Segment/RoundTrip.antt =====
-- A mangled segment is read off the front of any input.
use mathlib.Core.List.{append_assoc, append-nil}
use nitrate.Prelude.{
  ℕ, suc, ◌^◌, ◌<◌, ◌≡◌, refl, ap, ◌∙◌, inl, inr, Bool, true, false, ◌&&◌, Option, some, [], ◌∷◌,
  ◌++◌, ltb, length, length-append, all, Bool-cases, arith,
}
use nitrate.Mangle.Bytes.{Str, is_ascii_digit, is_utf8, split_exact-append, ascii-is_utf8}
use nitrate.Mangle.Decimal.{decimal, decimal-all, decimal-cons, parse_usize-decimal}
use nitrate.Mangle.Hex.{to_hex}
use nitrate.Mangle.Base63.{encode_c99_base63, decode_c99_base63}
use nitrate.Mangle.Base63.RoundTrip.{decode_c99_base63-encode_c99_base63}
use nitrate.Mangle.Segment.{
  ok, is_c99_identifier, plain_segment, demangle_hex, demangle_identifier, shorten, mangle_segment,
  demangle_segment,
}
use nitrate.Mangle.Segment.Plain.{
  from_utf8_valid, read_prefix-decimal, demangle_hex-to_hex, demangle_identifier-digits,
}
use nitrate.Mangle.Segment.Shapes.{
  utf8_from-bytes, encode_c99_base63-ascii, identifier-plain_segment, hex-plain_segment, not_digit,
  plain_segment-ascii,
}

module _ (deflate : Str → Str) (inflate : Str → Option Str) where
  pub demangle_segment-digit :
      (f c : ℕ) (s : Str)
      → is_ascii_digit c ≡ true
      → demangle_segment deflate inflate (suc f) (c ∷ s) ≡ demangle_identifier (c ∷ s)
  unfolding demangle_segment
  demangle_segment-digit f c s h = ground arith

  demangle_segment-decimal :
      (f n : ℕ) (s : Str)
      → demangle_segment deflate inflate (suc f) (decimal n ++ s)
        ≡ demangle_identifier (decimal n ++ s)
  demangle_segment-decimal f n s =
      let (c, digits, e, digit) = decimal-cons n in
      rw e (demangle_segment-digit f c (digits ++ s) digit)

  demangle_segment-x :
      (f : ℕ) (s : Str) → demangle_segment deflate inflate (suc f) (b'x' ∷ s) ≡ demangle_hex s
  unfolding demangle_segment
  demangle_segment-x f s = refl

  pub demangle_segment-plain_segment :
      (f c : ℕ) (s rest : Str)
      → is_utf8 (c ∷ s) ≡ true
      → length (plain_segment (c ∷ s)) < 2 ^ 64
      → demangle_segment deflate inflate (suc f) (plain_segment (c ∷ s) ++ rest) ≡ ok (c ∷ s) rest
  unfolding is_utf8
  demangle_segment-plain_segment f c s rest u l = elim (Bool-cases (is_c99_identifier (c ∷ s))) [
    | inl identifier ↦
        let e = identifier-plain_segment (c ∷ s) identifier in
        let whole = ap length e ∙ length-append (decimal (length (c ∷ s))) (c ∷ s) in
        rw (e, append_assoc)
          (demangle_segment-decimal f (length (c ∷ s)) (c ∷ s ++ rest)
            ∙ demangle_identifier-digits (decimal (length (c ∷ s))) c s rest
                (decimal-all (length (c ∷ s)))
                (parse_usize-decimal (length (c ∷ s)) (omega (arith, l, whole))) u
                (not_digit c s identifier))
    | inr other ↦
        let e = hex-plain_segment (c ∷ s) other in
        let hex = to_hex (c ∷ s) in
        let whole = ap length e ∙ ap suc (length-append (decimal (length hex)) (b'_' ∷ hex)) in
        let bytes = utf8_from-bytes 0 128 191 (c ∷ s) (omega arith) u in
        rw (e, append_assoc)
          (demangle_segment-x f _
            ∙ demangle_hex-to_hex (c ∷ s) rest u bytes (omega (arith, l, whole)))
  ]

module _ (deflate : Str → Str) (inflate : Str → Option Str) where
  demangle_segment-z :
      (f : ℕ) (bytes data' encoded segment left rest : Str)
      → length bytes < 2 ^ 64
      → is_utf8 bytes ≡ true
      → decode_c99_base63 bytes ≡ some data'
      → inflate data' ≡ some encoded
      → is_utf8 encoded ≡ true
      → demangle_segment deflate inflate f encoded ≡ ok segment left
      → demangle_segment deflate inflate
          (suc f)
          (b'z' ∷ decimal (length bytes) ++ b'_' ∷ (bytes ++ rest))
        ≡ ok segment rest
  unfolding demangle_segment
  demangle_segment-z f bytes data' encoded segment left rest l u d i v e =
      rw
        (
          read_prefix-decimal (length bytes) (bytes ++ rest) l,
          split_exact-append bytes rest,
          from_utf8_valid bytes u,
          d,
          i,
          from_utf8_valid encoded v,
          e,
        )
        refl

  shortens : Str → Bool
  shortens encoded = ltb 64 (length encoded) && ltb (length (deflate encoded)) (length encoded)

  short-mangle_segment :
      (c : ℕ) (s : Str)
      → shortens (plain_segment (c ∷ s)) ≡ true
      → let base63 = encode_c99_base63 (deflate (plain_segment (c ∷ s))) in
        mangle_segment deflate inflate (c ∷ s) ≡ b'z' ∷ decimal (length base63) ++ b'_' ∷ base63
  unfolding mangle_segment shorten shortens
  short-mangle_segment c s h = rw h refl

  plain-mangle_segment :
      (c : ℕ) (s : Str)
      → shortens (plain_segment (c ∷ s)) ≡ false
      → mangle_segment deflate inflate (c ∷ s) ≡ plain_segment (c ∷ s)
  unfolding mangle_segment shorten shortens
  plain-mangle_segment c s h = rw h refl

  -- For a coder that inflates what it deflates, a segment that is not empty is read off the front of
  -- any input, as long as the texts are shorter than the address space and the deflated bytes do not
  -- begin with zero.
  pub demangle_segment-mangle_segment :
      (f c b : ℕ) (s rest tail : Str)
      → ((d : Str) → inflate (deflate d) ≡ some d)
      → is_utf8 (c ∷ s) ≡ true
      → length (plain_segment (c ∷ s)) < 2 ^ 64
      → length (mangle_segment deflate inflate (c ∷ s)) < 2 ^ 64
      → deflate (plain_segment (c ∷ s)) ≡ b ∷ tail
      → 0 < b
      → all (λ x. ltb x 256) (b ∷ tail) ≡ true
      → demangle_segment deflate inflate
          (suc (suc f))
          (mangle_segment deflate inflate (c ∷ s) ++ rest)
        ≡ ok (c ∷ s) rest
  demangle_segment-mangle_segment f c b s rest tail inverse u l m e p a =
      let encoded = plain_segment (c ∷ s) in
      let base63 = encode_c99_base63 (deflate encoded) in
      let plain = demangle_segment-plain_segment deflate inflate in
      elim (Bool-cases (shortens encoded)) [
        | inl short ↦
            let shape = short-mangle_segment c s short in
            let whole =
              ap length shape ∙ ap suc (length-append (decimal (length base63)) (b'_' ∷ base63)) in
            let decoded : decode_c99_base63 base63 ≡ some (deflate encoded) =
              rw e (decode_c99_base63-encode_c99_base63 b tail p a) in
            let inner = rw append-nil at (plain f c s [] u l) in
            rw (shape, append_assoc)
              (demangle_segment-z (suc f) base63 (deflate encoded) encoded (c ∷ s) [] rest
                (omega (arith, m, whole))
                (ascii-is_utf8 base63 (encode_c99_base63-ascii (deflate encoded))) decoded
                (inverse encoded) (ascii-is_utf8 encoded (plain_segment-ascii c s u)) inner)
        | inr long ↦ rw (plain-mangle_segment c s long) (plain (suc f) c s rest u l)
      ]
