-- ===== src/Mangle/Path.antt =====
-- `mangle_string` and `demangle_string` on paths of segments, and the names of modules.
pub mod RoundTrip
pub mod Charset
use nitrate.Prelude.{
  ℕ, zero, suc, ◌+◌, ◌*◌, ◌^◌, Bool, true, false, ◌&&◌, Option, none, some, List, [], ◌∷◌, ◌++◌,
  ltb, leb, ◌==◌, if◌then◌else◌, length,
}
use nitrate.Mangle.Bytes.{Str}
use nitrate.Mangle.Decimal.{decimal}
use nitrate.Mangle.Segment.{
  Demangled, ok, err, panic, out_of_fuel, or_err, read_prefix, mangle_segment, demangle_segment,
}

abbrev pub prepend : ℕ → List Str → List Str
prepend c [] = (c ∷ []) ∷ []
prepend c (s ∷ ss) = (c ∷ s) ∷ ss

-- `split("::")`.
unfoldable pub split : Str → List Str
split [] = [] ∷ []
split (c ∷ []) = (c ∷ []) ∷ []
split (c ∷ d ∷ s) =
    let behind = split s in
    let next = split (d ∷ s) in if c == b':' && d == b':' then [] ∷ behind else prepend c next

-- `join("::")`.
unfoldable pub join : List Str → Str
join [] = []
join (s ∷ []) = s
join (s ∷ t ∷ ss) = s ++ b':' ∷ b':' ∷ join (t ∷ ss)

-- A `Vec` of more strings than the address space holds panics; a `String` has 24 bytes.
abbrev pub exceeds_capacity : ℕ → Bool
exceeds_capacity n = leb (2 ^ 63) (n * 24)

abbrev pub and_then {ℓ κ} :
    {A : Type ℓ} {B : Type κ} → Demangled A → (A → Str → Demangled B) → Demangled B
and_then (ok a rest) k = k a rest
and_then err k = err
and_then panic k = panic
and_then out_of_fuel k = out_of_fuel

module _ (deflate : Str → Str) (inflate : Str → Option Str) where
  unfoldable pub mangle_segments : List Str → Str
  unfolding mangle_segment
  mangle_segments [] = []
  mangle_segments (s ∷ ss) = mangle_segment deflate inflate s ++ mangle_segments ss

  unfoldable pub mangle_string : Str → Str
  unfolding mangle_segments split
  mangle_string s =
      let segments = split s in decimal (length segments) ++ b'_' ∷ mangle_segments segments

  unfoldable pub demangle_segments : ℕ → ℕ → Str → Demangled (List Str)
  unfolding demangle_segment
  demangle_segments f zero input = ok [] input
  demangle_segments f (suc n) input =
      and_then (demangle_segment deflate inflate f input)
        λ s rest. and_then (demangle_segments f n rest) λ ss rest'. ok (s ∷ ss) rest'

  unfoldable pub demangle_string : ℕ → Str → Demangled Str
  unfolding demangle_segments join read_prefix
  demangle_string f input = or_err (read_prefix input) λ (count, rest).
      let segments = and_then (demangle_segments f count rest) λ ss rest'. ok (join ss) rest' in
      if exceeds_capacity count then panic else segments

  unfoldable pub mangle_module : Str → Str
  unfolding mangle_string
  mangle_module s = b'_' ∷ b'N' ∷ mangle_string s

  unfoldable pub demangle_module : ℕ → Str → Demangled Str
  unfolding demangle_string
  demangle_module f (c ∷ d ∷ input) =
      let rest = demangle_string f input in if c == b'_' && d == b'N' then rest else err
  demangle_module f _ = err
