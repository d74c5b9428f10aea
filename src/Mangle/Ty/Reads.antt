-- ===== src/Mangle/Ty/Reads.antt =====
-- What mangling keeps of a type and what it forgets, and the parts of the decoder.
use nitrate.Prelude.{
  ℕ, zero, suc, ◌+◌, ◌*◌, ◌^◌, ◌≤◌, ◌<◌, ◌≡◌, refl, ap, Bool, true, false, Option, none, some, List,
  [], ◌∷◌, ◌++◌, arith,
}
use nitrate.Prelude as P
use nitrate.Hir.Lit.{Lit}
use nitrate.Mangle.Bytes.{Str}
use nitrate.Mangle.Decimal.{decimal}
use nitrate.Mangle.Segment.{ok}
use nitrate.Mangle.Segment.Plain.{read_number-decimal}
use nitrate.Mangle.Path.{split}
use nitrate.Mangle.Path.RoundTrip.{AreReadable}
use nitrate.Mangle.Ty.{
  Lifetime, Ty, Tys, Named, no_types, with_type, no_named, named, length, length_named, ref_flags,
  read_ref_flags, read_decimal, unnamed, inferred_type,
}

abbrev pub append : Tys → Tys → Tys
append no_types us = us
append (with_type t ts) us = with_type t (append ts us)

-- Lifetimes, bounds, and names of parameters are not mangled, an unresolved length is 0, and named
-- arguments follow the positional ones.
unfoldable mutual
  unfolding unnamed

  pub forget : Ty → Ty
  forget (Ty.array element len) = Ty.array (forget element) len
  forget (Ty.tuple elements) = Ty.tuple (forget_types elements)
  forget (Ty.refine base _ _) = Ty.refine (forget base) (Lit.i64 0) (Lit.i64 0)
  forget (Ty.unresolved_array element _) = Ty.array (forget element) 0
  forget (Ty.unresolved_refine base _ _) = Ty.refine (forget base) (Lit.i64 0) (Lit.i64 0)
  forget (Ty.function params return_type) =
      Ty.function (unnamed (forget_named params)) (forget return_type)
  forget (Ty.reference _ exclusive mutable to) =
      Ty.reference Lifetime.inferred exclusive mutable (forget to)
  forget (Ty.slice_ref _ exclusive mutable element) =
      Ty.slice_ref Lifetime.inferred exclusive mutable (forget element)
  forget (Ty.pointer _ exclusive mutable to) =
      Ty.pointer Lifetime.inferred exclusive mutable (forget to)
  forget (Ty.slice_ptr _ exclusive mutable element) =
      Ty.slice_ptr Lifetime.inferred exclusive mutable (forget element)
  forget (Ty.trait_object _) = Ty.trait_object []
  forget (Ty.parameterized base positional args) =
      Ty.parameterized (forget base) (append (forget_types positional) (forget_named args)) no_named
  forget (Ty.generic_param index _) = Ty.generic_param index []
  forget (Ty.inferred id _) = Ty.inferred id none
  forget t = t

  pub forget_types : Tys → Tys
  forget_types no_types = no_types
  forget_types (with_type t ts) = with_type (forget t) (forget_types ts)

  pub forget_named : Named → Tys
  forget_named no_named = no_types
  forget_named (named _ t ns) = with_type (forget t) (forget_named ns)

-- The types within a type, itself included.
unfoldable mutual
  pub size : Ty → ℕ
  size (Ty.array element _) = suc (size element)
  size (Ty.tuple elements) = suc (size_types elements)
  size (Ty.refine base _ _) = suc (size base)
  size (Ty.unresolved_array element _) = suc (size element)
  size (Ty.unresolved_refine base _ _) = suc (size base)
  size (Ty.function params return_type) = suc (size_named params + size return_type)
  size (Ty.reference _ _ _ to) = suc (size to)
  size (Ty.slice_ref _ _ _ element) = suc (size element)
  size (Ty.pointer _ _ _ to) = suc (size to)
  size (Ty.slice_ptr _ _ _ element) = suc (size element)
  size (Ty.parameterized base positional args) =
      suc (size base + size_types positional + size_named args)
  size _ = 1

  pub size_types : Tys → ℕ
  size_types no_types = 0
  size_types (with_type t ts) = size t + size_types ts

  pub size_named : Named → ℕ
  size_named no_named = 0
  size_named (named _ t ns) = size t + size_named ns

module _ (deflate : Str → Str) (inflate : Str → Option Str) where
  abbrev pub IsReadableName : Str → Type 0
  IsReadableName name =
      AreReadable deflate inflate (split name) × (P.length (split name) * 24 < 2 ^ 63)

  -- A type without `Str` whose names are readable and whose numbers have 32 bits.
  unfoldable mutual
    unfolding length length_named

    pub IsReadableType : Ty → Type 0
    IsReadableType (Ty.array element len) = IsReadableType element × (len < 2 ^ 32)
    IsReadableType (Ty.tuple elements) = AreReadableTypes elements × (length elements < 2 ^ 32)
    IsReadableType (Ty.struct name) = IsReadableName name
    IsReadableType (Ty.enum name) = IsReadableName name
    IsReadableType (Ty.type_alias name) = IsReadableName name
    IsReadableType (Ty.refine base _ _) = IsReadableType base
    IsReadableType (Ty.unresolved_array element _) = IsReadableType element
    IsReadableType (Ty.unresolved_refine base _ _) = IsReadableType base
    IsReadableType (Ty.function params return_type) =
        AreReadableNamed params × (length_named params < 2 ^ 32) × IsReadableType return_type
    IsReadableType (Ty.reference _ _ _ to) = IsReadableType to
    IsReadableType (Ty.slice_ref _ _ _ element) = IsReadableType element
    IsReadableType (Ty.pointer _ _ _ to) = IsReadableType to
    IsReadableType (Ty.slice_ptr _ _ _ element) = IsReadableType element
    IsReadableType (Ty.parameterized base positional args) =
        IsReadableType base
        × AreReadableTypes positional
        × AreReadableNamed args
        × (length positional + length_named args < 2 ^ 32)
    IsReadableType (Ty.generic_param index _) = index < 2 ^ 32
    IsReadableType (Ty.inferred id _) = (0 < id) × (id < 2 ^ 32)
    IsReadableType Ty.str = ⊥
    IsReadableType _ = Unit

    pub AreReadableTypes : Tys → Type 0
    AreReadableTypes no_types = Unit
    AreReadableTypes (with_type t ts) = IsReadableType t × AreReadableTypes ts

    pub AreReadableNamed : Named → Type 0
    AreReadableNamed no_named = Unit
    AreReadableNamed (named _ t ns) = IsReadableType t × AreReadableNamed ns

pub read_ref_flags-ref_flags :
    (exclusive mutable : Bool) (rest : Str)
    → read_ref_flags (ref_flags exclusive mutable ∷ rest) ≡ ok (exclusive, mutable) rest
unfolding read_ref_flags ref_flags
read_ref_flags-ref_flags false false rest = refl
read_ref_flags-ref_flags false true rest = refl
read_ref_flags-ref_flags true false rest = refl
read_ref_flags-ref_flags true true rest = refl

pub read_decimal-decimal :
    (n : ℕ) (rest : Str) → n < 2 ^ 32 → read_decimal (decimal n ++ b'_' ∷ rest) ≡ ok n rest
unfolding read_decimal
read_decimal-decimal n rest h = rw (read_number-decimal 32 n rest h) refl

pub inferred_type_pos :
    (id : ℕ) (rest : Str) → 0 < id → inferred_type id rest ≡ ok (Ty.inferred id none) rest
unfolding inferred_type
inferred_type_pos zero rest h = absurd (omega arith)
inferred_type_pos (suc id) rest h = refl

pub append_nil : (ts : Tys) → append ts no_types ≡ ts
append_nil no_types = refl
append_nil (with_type t ts) = ap (with_type t) (append_nil ts)
