-- ===== src/Mangle/Name/RoundTrip.antt =====
-- Symbols are read back, and no two of them are the same.
use mathlib.Core.List.{append-nil}
use nitrate.Prelude.{ℕ, suc, ◌+◌, ◌≤◌, ◌≡◌, refl, ap, ◌∙◌, Option, some, [], ◌++◌, arith}
use nitrate.Mangle.Bytes.{Str}
use nitrate.Mangle.Segment.{Demangled, ok, err}
use nitrate.Mangle.Path.{and_then, mangle_string}
use nitrate.Mangle.Path.RoundTrip.{demangle_string-mangle_string}
use nitrate.Mangle.Ty.{Ty, mangle_type, demangle_type}
use nitrate.Mangle.Ty.Reads.{IsReadableName, IsReadableType, forget, size}
use nitrate.Mangle.Ty.RoundTrip.{demangle_type-mangle_type}
use nitrate.Mangle.Name.{mangle_name, demangle_name, at_end}

-- A symbol whose type is read to some result.
abbrev finish : Str → Str → Demangled Ty → Demangled (Str × Str × Ty)
finish p n result = and_then result λ ty rest. at_end (p, n, ty) rest

module _ (deflate : Str → Str) (inflate : Str → Option Str) where
  demangle_name_reads :
      (g f : ℕ) (p n : Str) (t : Ty)
      → ((d : Str) → inflate (deflate d) ≡ some d)
      → IsReadableName deflate inflate p
      → IsReadableName deflate inflate n
      → demangle_name deflate inflate (suc (suc g)) f (mangle_name deflate inflate p n t)
        ≡ finish p n (demangle_type deflate inflate (suc (suc g)) f (mangle_type deflate inflate t))
  unfolding demangle_name mangle_name
  demangle_name_reads g f p n t inverse rp rn =
      rw
        (
          demangle_string-mangle_string deflate inflate g p
              (mangle_string deflate inflate n ++ mangle_type deflate inflate t) inverse rp.0 rp.1,
          demangle_string-mangle_string deflate inflate g n (mangle_type deflate inflate t) inverse
              rn.0 rn.1,
        )
        refl

  -- For a coder that inflates what it deflates, a symbol of readable names and a readable type is
  -- demangled, with fuel for the types within its type, to the names and the type without what
  -- mangling forgets.
  pub demangle_name-mangle_name :
      (g f : ℕ) (p n : Str) (t : Ty)
      → ((d : Str) → inflate (deflate d) ≡ some d)
      → IsReadableName deflate inflate p
      → IsReadableName deflate inflate n
      → IsReadableType deflate inflate t
      → size t ≤ f
      → demangle_name deflate inflate (suc (suc g)) f (mangle_name deflate inflate p n t)
        ≡ ok (p, n, forget t) []
  unfolding at_end
  demangle_name-mangle_name g f p n t inverse rp rn rt h =
      demangle_name_reads g f p n t inverse rp rn
      ∙ ap (finish p n)
          (rw append-nil at (demangle_type-mangle_type deflate inflate g f t [] inverse rt h))

  -- For a coder that inflates what it deflates, symbols of readable names and types that are the same
  -- text have the same package, the same name, and types that differ in what mangling forgets only.
  pub mangle_name-injective :
      (p p' n n' : Str) (t t' : Ty)
      → ((d : Str) → inflate (deflate d) ≡ some d)
      → IsReadableName deflate inflate p
        × IsReadableName deflate inflate n
        × IsReadableType deflate inflate t
      → IsReadableName deflate inflate p'
        × IsReadableName deflate inflate n'
        × IsReadableType deflate inflate t'
      → mangle_name deflate inflate p n t ≡ mangle_name deflate inflate p' n' t'
      → (p ≡ p') × (n ≡ n') × (forget t ≡ forget t')
  mangle_name-injective p p' n n' t t' inverse r r' e =
      let fuel = size t + size t' in
      let left = demangle_name-mangle_name 0 fuel p n t inverse r.0 r.1 r.2 (omega arith) in
      let right = demangle_name-mangle_name 0 fuel p' n' t' inverse r'.0 r'.1 r'.2 (omega arith) in
      (cc (e, left, right), cc (e, left, right), cc (e, left, right))

  -- For a coder that inflates what it deflates, a symbol of readable names whose type is `Str` is not
  -- demangled, whatever the fuel of one or more.
  demangle_name_str :
      (g f : ℕ) (p n : Str)
      → ((d : Str) → inflate (deflate d) ≡ some d)
      → IsReadableName deflate inflate p
      → IsReadableName deflate inflate n
      → demangle_name deflate inflate (suc (suc g)) (suc f) (mangle_name deflate inflate p n Ty.str)
        ≡ err
  unfolding demangle_type mangle_type
  demangle_name_str g f p n inverse rp rn = demangle_name_reads g (suc f) p n Ty.str inverse rp rn
