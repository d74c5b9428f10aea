-- ===== src/Mangle/Ty/RoundTrip.antt =====
-- Mangled types are read back, with what follows them.
use mathlib.Core.List.{append_assoc}
use nitrate.Prelude.{
  ℕ, zero, suc, ◌+◌, ◌*◌, ◌^◌, ◌≤◌, ◌<◌, ◌≡◌, refl, ap, sym, ◌∙◌, Bool, Option, none, some, List,
  [], ◌∷◌, ◌++◌, arith,
}
use nitrate.Prelude as P
use nitrate.Mangle.Bytes.{Str}
use nitrate.Mangle.Decimal.{decimal}
use nitrate.Mangle.Segment.{Demangled, ok}
use nitrate.Mangle.Path.{split, mangle_string, demangle_string}
use nitrate.Mangle.Path.RoundTrip.{AreReadable, demangle_string-mangle_string}
use nitrate.Mangle.Ty.{
  Ty, Tys, Named, no_types, with_type, no_named, named, length, length_named, demangle_types,
  discriminant, mangle_type, mangle_types, mangle_named, demangle_type,
}
use nitrate.Mangle.Ty.Reads.{
  append, append_nil, forget, forget_types, forget_named, size, size_types, size_named,
  IsReadableType, AreReadableTypes, AreReadableNamed, read_ref_flags-ref_flags,
  read_decimal-decimal, inferred_type_pos,
}

-- Fuel above any bound is a successor.
spend {ℓ} : {n : ℕ} (P : ℕ → Type ℓ) → ((f : ℕ) → n ≤ f → P (suc f)) → (f : ℕ) → n < f → P f
spend P k zero h = absurd (omega arith)
spend P k (suc f) h = k f (omega arith)

add_zero : (n : ℕ) → n + 0 ≡ n
add_zero n = omega arith

suc_add : (m n : ℕ) → suc m + n ≡ suc (m + n)
suc_add m n = omega arith

zero_add : (n : ℕ) → 0 + n ≡ n
zero_add n = omega arith

module _ (deflate : Str → Str) (inflate : Str → Option Str)
    (inverse : (d : Str) → inflate (deflate d) ≡ some d) (g : ℕ) where
  abbrev read : ℕ → Str → Demangled Ty
  read f input = demangle_type deflate inflate (suc (suc g)) f input

  abbrev ReadsType : Ty → Type 0
  ReadsType t =
      (rest : Str) (f : ℕ)
      → size t ≤ f
      → IsReadableType deflate inflate t
      → read f (mangle_type deflate inflate t ++ rest) ≡ ok (forget t) rest

  abbrev ReadsTypes : Tys → Type 0
  ReadsTypes ts =
      (rest left : Str) (f n : ℕ) (us : Tys)
      → size_types ts ≤ f
      → AreReadableTypes deflate inflate ts
      → demangle_types (λ i. read f i) n rest ≡ ok us left
      → demangle_types (λ i. read f i) (length ts + n) (mangle_types deflate inflate ts ++ rest)
        ≡ ok (append (forget_types ts) us) left

  abbrev ReadsNamed : Named → Type 0
  ReadsNamed ns =
      (rest : Str) (f : ℕ)
      → size_named ns ≤ f
      → AreReadableNamed deflate inflate ns
      → demangle_types (λ i. read f i) (length_named ns) (mangle_named deflate inflate ns ++ rest)
        ≡ ok (forget_named ns) rest

  name_lem :
      (name rest : Str)
      → AreReadable deflate inflate (split name) × (P.length (split name) * 24 < 2 ^ 63)
      → demangle_string deflate inflate (suc (suc g)) (mangle_string deflate inflate name ++ rest)
        ≡ ok name rest
  name_lem name rest r = demangle_string-mangle_string deflate inflate g name rest inverse r.0 r.1

  demangle_type-ReadsType : (t : Ty) → ReadsType t
  unfolding demangle_type mangle_type forget size IsReadableType discriminant length length_named
      demangle_types
  demangle_type-ReadsType t = elim t as ReadsType ReadsTypes ReadsNamed [
    | Ty.array (element → ih) len ↦ λ rest. spend _ λ f h r.
        simp
          (append_assoc, ih (decimal len ++ b'_' ∷ rest) f h r.0, read_decimal-decimal len rest r.1)
    | Ty.tuple (elements → ih) ↦ λ rest. spend _ λ f h r. rw append_assoc (
        rw
          (
            read_decimal-decimal (length elements) (mangle_types deflate inflate elements ++ rest)
                r.1,
            rw (add_zero, append_nil) at (ih rest rest f 0 no_types h r.0 refl),
          )
          refl)
    | Ty.struct name ↦ λ rest. spend _ λ f h r. rw (name_lem name rest r) refl
    | Ty.enum name ↦ λ rest. spend _ λ f h r. rw (name_lem name rest r) refl
    | Ty.type_alias name ↦ λ rest. spend _ λ f h r. rw (name_lem name rest r) refl
    | Ty.refine (base → ih) min max ↦ λ rest. spend _ λ f h r. rw (ih rest f h r) refl
    | Ty.unresolved_array (element → ih) len ↦ λ rest. spend _ λ f h r.
        rw append_assoc
          (rw (ih (b'0' ∷ b'_' ∷ rest) f h r, read_decimal-decimal 0 rest (omega arith)) refl)
    | Ty.unresolved_refine (base → ih) min max ↦ λ rest. spend _ λ f h r. rw (ih rest f h r) refl
    | Ty.function (params → ihs) (return_type → ih) ↦ λ rest. spend _ λ f h r. simp (
      append_assoc,
      read_decimal-decimal (length_named params)
          (mangle_named deflate inflate params ++ (mangle_type deflate inflate return_type ++ rest))
          r.1,
      ihs (mangle_type deflate inflate return_type ++ rest) f (omega arith) r.0,
      ih rest f (omega arith) r.2,
    )
    | Ty.reference l e m (to → ih) ↦ λ rest. spend _ λ f h r.
        rw (read_ref_flags-ref_flags e m (mangle_type deflate inflate to ++ rest), ih rest f h r)
          refl
    | Ty.slice_ref l e m (to → ih) ↦ λ rest. spend _ λ f h r.
        rw (read_ref_flags-ref_flags e m (mangle_type deflate inflate to ++ rest), ih rest f h r)
          refl
    | Ty.pointer l e m (to → ih) ↦ λ rest. spend _ λ f h r.
        rw (read_ref_flags-ref_flags e m (mangle_type deflate inflate to ++ rest), ih rest f h r)
          refl
    | Ty.slice_ptr l e m (to → ih) ↦ λ rest. spend _ λ f h r.
        rw (read_ref_flags-ref_flags e m (mangle_type deflate inflate to ++ rest), ih rest f h r)
          refl
    | Ty.parameterized (base → ih) (positional → ihs) (args → ihn) ↦ λ rest. spend _ λ f h r. simp (
      append_assoc,
      ih _ f (omega arith) r.0,
      read_decimal-decimal (length positional + length_named args)
          (mangle_types deflate inflate positional ++ (mangle_named deflate inflate args ++ rest))
          r.3,
      ihs (mangle_named deflate inflate args ++ rest) rest f (length_named args) (forget_named args)
          (omega arith) r.1 (ihn rest f (omega arith) r.2),
    )
    | Ty.generic_param index name ↦
        λ rest. spend _ λ f h r. rw append_assoc (rw (read_decimal-decimal index rest r) refl)
    | Ty.inferred id name ↦ λ rest. spend _ λ f h r.
        rw append_assoc (rw (read_decimal-decimal id rest r.1, inferred_type_pos id rest r.0) refl)
    | Ty.str ↦ λ rest f h r. absurd r
    | no_types ↦ λ rest left f n us h r e. rw (zero_add n) e
    | with_type (t → ih) (ts → ihs) ↦ λ rest left f n us h r e.
        rw (append_assoc, suc_add (length ts) n)
          (rw
            (
              ih (mangle_types deflate inflate ts ++ rest) f (omega arith) r.0,
              ihs rest left f n us (omega arith) r.1 e,
            )
            refl)
    | no_named ↦ λ rest f h r. refl
    | named name (t → ih) (ns → ihs) ↦ λ rest f h r. rw append_assoc (
        rw
          (
            ih (mangle_named deflate inflate ns ++ rest) f (omega arith) r.0,
            ihs rest f (omega arith) r.1,
          )
          refl)
    | _ ↦ λ rest. spend _ λ f h r. refl
  ]

module _ (deflate : Str → Str) (inflate : Str → Option Str) where
  -- For a coder that inflates what it deflates, a mangled type without `Str`, with readable names and
  -- numbers of 32 bits, is read off the front of any input with fuel for the types within it. What
  -- is read is the type without what mangling forgets, and what follows it is left.
  pub demangle_type-mangle_type :
      (g f : ℕ) (t : Ty) (rest : Str)
      → ((d : Str) → inflate (deflate d) ≡ some d)
      → IsReadableType deflate inflate t
      → size t ≤ f
      → demangle_type deflate inflate (suc (suc g)) f (mangle_type deflate inflate t ++ rest)
        ≡ ok (forget t) rest
  demangle_type-mangle_type g f t rest inverse r h =
      demangle_type-ReadsType deflate inflate inverse g t rest f h r
