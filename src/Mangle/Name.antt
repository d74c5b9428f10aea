-- ===== src/Mangle/Name.antt =====
-- `mangle_name` and `demangle_name` of mangle.rs: the symbols of functions and globals.
pub mod RoundTrip
pub mod Charset
use nitrate.Prelude.{ℕ, Bool, true, false, ◌&&◌, Option, [], ◌∷◌, ◌++◌, ◌==◌, if◌then◌else◌}
use nitrate.Mangle.Bytes.{Str}
use nitrate.Mangle.Segment.{Demangled, ok, err}
use nitrate.Mangle.Path.{and_then, mangle_string, demangle_string}
use nitrate.Mangle.Ty.{Ty, mangle_type, demangle_type}

-- Nothing may be left of the input.
unfoldable pub at_end {ℓ} : {A : Type ℓ} → A → Str → Demangled A
at_end a [] = ok a []
at_end a (_ ∷ _) = err

module _ (deflate : Str → Str) (inflate : Str → Option Str) where
  unfoldable pub mangle_name : Str → Str → Ty → Str
  unfolding mangle_string mangle_type
  mangle_name package_name name ty =
      (b'_' ∷ b'N' ∷ mangle_string deflate inflate package_name)
      ++ (mangle_string deflate inflate name ++ mangle_type deflate inflate ty)

  -- The fuel is that of the decoder of types.
  unfoldable pub demangle_name : ℕ → ℕ → Str → Demangled (Str × Str × Ty)
  unfolding demangle_string demangle_type at_end
  demangle_name g f (c ∷ d ∷ input) =
      let rest = and_then (demangle_string deflate inflate g input) λ package_name after_package.
        and_then (demangle_string deflate inflate g after_package) λ name after_name.
          and_then (demangle_type deflate inflate g f after_name)
            λ ty after_ty. at_end (package_name, name, ty) after_ty in
      if c == b'_' && d == b'N' then rest else err
  demangle_name g f _ = err
