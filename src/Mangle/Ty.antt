-- ===== src/Mangle/Ty.antt =====
-- `mangle_type` and `demangle_type` of ty.rs. A type has the names of its definitions in their
-- place. Left out are spans and the attributes of functions; a bound and an expression are handles.
pub mod Reads
pub mod RoundTrip
use nitrate.Prelude.{
  ℕ, zero, suc, ◌+◌, Bool, true, false, Option, none, some, List, [], ◌∷◌, ◌++◌, ◌==◌,
  if◌then◌else◌,
}
use nitrate.Hir.Lit.{Lit}
use nitrate.Mangle.Bytes.{Str}
use nitrate.Mangle.Decimal.{decimal}
use nitrate.Mangle.Segment.{Demangled, ok, err, out_of_fuel, or_err, read_number}
use nitrate.Mangle.Path.{and_then, mangle_string, demangle_string}

pub data Lifetime : Type 0 where
  static gc thread_local task_local inferred : Lifetime

mutual
  pub data Ty : Type 0 where
    never unit bool : Ty
    u8 u16 u32 u64 u128 usize : Ty
    i8 i16 i32 i64 i128 : Ty
    f32 f64 : Ty
    array : Ty → ℕ → Ty
    tuple : Tys → Ty
    struct enum type_alias : Str → Ty
    refine : Ty → Lit → Lit → Ty
    unresolved_array : Ty → ℕ → Ty
    unresolved_refine : Ty → ℕ → ℕ → Ty
    function : Named → Ty → Ty
    -- exclusive, mutable, and what is referred to
    reference slice_ref pointer slice_ptr : Lifetime → Bool → Bool → Ty → Ty
    trait_object : List ℕ → Ty
    -- the base, and the positional and the named arguments
    parameterized : Ty → Tys → Named → Ty
    inferred_float inferred_integer : Ty
    inferred : ℕ → Option Str → Ty
    generic_param : ℕ → Str → Ty
    range str : Ty

  pub data Tys : Type 0 where
    no_types : Tys
    with_type : Ty → Tys → Tys

  -- Types behind names: the parameters of a function, the named arguments.
  pub data Named : Type 0 where
    no_named : Named
    named : Str → Ty → Named → Named

unfoldable pub length : Tys → ℕ
length no_types = 0
length (with_type _ ts) = suc (length ts)

unfoldable pub length_named : Named → ℕ
length_named no_named = 0
length_named (named _ _ ns) = suc (length_named ns)

unfoldable pub ref_flags : Bool → Bool → ℕ
ref_flags false false = b'0'
ref_flags false true = b'1'
ref_flags true false = b'2'
ref_flags true true = b'3'

unfoldable pub read_ref_flags : Str → Demangled (Bool × Bool)
read_ref_flags [] = err
read_ref_flags (c ∷ s) =
    if c == b'0'
    then ok (false, false) s
    else if c == b'1'
    then ok (false, true) s
    else if c == b'2'
    then ok (true, false) s
    else if c == b'3'
    then ok (true, true) s
    else err

unfoldable pub read_decimal : Str → Demangled ℕ
unfolding read_number
read_decimal s = or_err (read_number 32 s) λ (value, rest). ok value rest

-- What the arms of `demangle_type` read behind the first byte: nothing, a name, flags and a type,
-- or a shape of their own.
pub data Discriminant : Type 0 where
  leaf : Ty → Discriminant
  read_name : (Str → Ty) → Discriminant
  read_flags : (Bool → Bool → Ty → Ty) → Discriminant
  array tuple refine function parameterized generic_param inferred : Discriminant

unfoldable pub discriminant : ℕ → Option Discriminant
discriminant c =
    if c == b'A'
    then some (leaf Ty.never)
    else if c == b'B'
    then some (leaf Ty.unit)
    else if c == b'C'
    then some (leaf Ty.bool)
    else if c == b'D'
    then some (leaf Ty.u8)
    else if c == b'E'
    then some (leaf Ty.u16)
    else if c == b'F'
    then some (leaf Ty.u32)
    else if c == b'G'
    then some (leaf Ty.u64)
    else if c == b'H'
    then some (leaf Ty.u128)
    else if c == b'I'
    then some (leaf Ty.usize)
    else if c == b'J'
    then some (leaf Ty.i8)
    else if c == b'K'
    then some (leaf Ty.i16)
    else if c == b'L'
    then some (leaf Ty.i32)
    else if c == b'M'
    then some (leaf Ty.i64)
    else if c == b'N'
    then some (leaf Ty.i128)
    else if c == b'O'
    then some (leaf Ty.f32)
    else if c == b'P'
    then some (leaf Ty.f64)
    else if c == b'Q'
    then some array
    else if c == b'R'
    then some tuple
    else if c == b'S'
    then some (read_name Ty.struct)
    else if c == b'T'
    then some (read_name Ty.enum)
    else if c == b'U'
    then some (read_name Ty.type_alias)
    else if c == b'V'
    then some refine
    else if c == b'W'
    then some function
    else if c == b'X'
    then some (read_flags (Ty.reference Lifetime.inferred))
    else if c == b'Y'
    then some (read_flags (Ty.slice_ref Lifetime.inferred))
    else if c == b'Z'
    then some (read_flags (Ty.pointer Lifetime.inferred))
    else if c == b'a'
    then some (read_flags (Ty.slice_ptr Lifetime.inferred))
    else if c == b'b'
    then some (leaf (Ty.trait_object []))
    else if c == b'c'
    then some parameterized
    else if c == b'd'
    then some generic_param
    else if c == b'e'
    then some inferred
    else if c == b'f'
    then some (leaf Ty.inferred_float)
    else if c == b'g'
    then some (leaf Ty.inferred_integer)
    else if c == b'h'
    then some (leaf Ty.range)
    else none

-- Types that follow each other, as many as the count says.
unfoldable pub demangle_types : (Str → Demangled Ty) → ℕ → Str → Demangled Tys
demangle_types read zero input = ok no_types input
demangle_types read (suc n) input =
    and_then (read input)
      λ t rest. and_then (demangle_types read n rest) λ ts rest'. ok (with_type t ts) rest'

-- Parameters without a name.
unfoldable pub unnamed : Tys → Named
unnamed no_types = no_named
unnamed (with_type t ts) = named [] t (unnamed ts)

-- `NonZeroU32::new(id).ok_or(())`.
unfoldable pub inferred_type : ℕ → Str → Demangled Ty
inferred_type zero rest = err
inferred_type (suc id) rest = ok (Ty.inferred (suc id) none) rest

module _ (deflate : Str → Str) (inflate : Str → Option Str) where
  unfoldable mutual
    unfolding mangle_string decimal length length_named ref_flags

    pub mangle_type : Ty → Str
    mangle_type Ty.never = b'A' ∷ []
    mangle_type Ty.unit = b'B' ∷ []
    mangle_type Ty.bool = b'C' ∷ []
    mangle_type Ty.u8 = b'D' ∷ []
    mangle_type Ty.u16 = b'E' ∷ []
    mangle_type Ty.u32 = b'F' ∷ []
    mangle_type Ty.u64 = b'G' ∷ []
    mangle_type Ty.u128 = b'H' ∷ []
    mangle_type Ty.usize = b'I' ∷ []
    mangle_type Ty.i8 = b'J' ∷ []
    mangle_type Ty.i16 = b'K' ∷ []
    mangle_type Ty.i32 = b'L' ∷ []
    mangle_type Ty.i64 = b'M' ∷ []
    mangle_type Ty.i128 = b'N' ∷ []
    mangle_type Ty.f32 = b'O' ∷ []
    mangle_type Ty.f64 = b'P' ∷ []
    mangle_type (Ty.array element len) = b'Q' ∷ mangle_type element ++ decimal len ++ b'_' ∷ []
    mangle_type (Ty.tuple elements) =
        b'R' ∷ decimal (length elements) ++ b'_' ∷ mangle_types elements
    mangle_type (Ty.struct name) = b'S' ∷ mangle_string deflate inflate name
    mangle_type (Ty.enum name) = b'T' ∷ mangle_string deflate inflate name
    mangle_type (Ty.type_alias name) = b'U' ∷ mangle_string deflate inflate name
    mangle_type (Ty.refine base _ _) = b'V' ∷ mangle_type base
    mangle_type (Ty.unresolved_array element _) = b'Q' ∷ mangle_type element ++ b'0' ∷ b'_' ∷ []
    mangle_type (Ty.unresolved_refine base _ _) = b'V' ∷ mangle_type base
    mangle_type (Ty.function params return_type) =
        b'W' ∷ decimal (length_named params)
        ++ b'_' ∷ mangle_named params
        ++ mangle_type return_type
    mangle_type (Ty.reference _ exclusive mutable to) =
        b'X' ∷ ref_flags exclusive mutable ∷ mangle_type to
    mangle_type (Ty.slice_ref _ exclusive mutable element) =
        b'Y' ∷ ref_flags exclusive mutable ∷ mangle_type element
    mangle_type (Ty.pointer _ exclusive mutable to) =
        b'Z' ∷ ref_flags exclusive mutable ∷ mangle_type to
    mangle_type (Ty.slice_ptr _ exclusive mutable element) =
        b'a' ∷ ref_flags exclusive mutable ∷ mangle_type element
    mangle_type (Ty.trait_object _) = b'b' ∷ []
    mangle_type (Ty.parameterized base positional args) =
        b'c' ∷ mangle_type base
        ++ decimal (length positional + length_named args)
        ++ b'_' ∷ mangle_types positional
        ++ mangle_named args
    mangle_type (Ty.generic_param index _) = b'd' ∷ decimal index ++ b'_' ∷ []
    mangle_type (Ty.inferred id _) = b'e' ∷ decimal id ++ b'_' ∷ []
    mangle_type Ty.inferred_float = b'f' ∷ []
    mangle_type Ty.inferred_integer = b'g' ∷ []
    mangle_type Ty.range = b'h' ∷ []
    mangle_type Ty.str = b'i' ∷ []

    pub mangle_types : Tys → Str
    mangle_types no_types = []
    mangle_types (with_type t ts) = mangle_type t ++ mangle_types ts

    pub mangle_named : Named → Str
    mangle_named no_named = []
    mangle_named (named _ t ns) = mangle_type t ++ mangle_named ns

  -- The first fuel is for the segments of names, the second for types within types.
  unfoldable pub demangle_type : ℕ → ℕ → Str → Demangled Ty
  unfolding demangle_string read_decimal read_ref_flags discriminant demangle_types unnamed
      inferred_type
  demangle_type g zero input = out_of_fuel
  demangle_type g (suc f) [] = err
  demangle_type g (suc f) (c ∷ s) = or_err (discriminant c) λ d. elim d [
    | leaf t ↦ ok t s
    | read_name mk ↦ and_then (demangle_string deflate inflate g s) λ name rest. ok (mk name) rest
    | read_flags mk ↦ and_then (read_ref_flags s) λ (exclusive, mutable) rest.
        and_then (demangle_type g f rest) λ to rest'. ok (mk exclusive mutable to) rest'
    | array ↦
        and_then (demangle_type g f s)
          λ element rest. and_then (read_decimal rest) λ len rest'. ok (Ty.array element len) rest'
    | tuple ↦ and_then (read_decimal s) λ count rest.
        and_then (demangle_types (λ i. demangle_type g f i) count rest)
          λ elements rest'. ok (Ty.tuple elements) rest'
    | refine ↦
        and_then (demangle_type g f s) λ base rest. ok (Ty.refine base (Lit.i64 0) (Lit.i64 0)) rest
    | function ↦ and_then (read_decimal s) λ count rest.
        and_then (demangle_types (λ i. demangle_type g f i) count rest) λ params rest'.
          and_then (demangle_type g f rest')
            λ return_type rest''. ok (Ty.function (unnamed params) return_type) rest''
    | parameterized ↦ and_then (demangle_type g f s) λ base rest.
        and_then (read_decimal rest) λ count rest'.
          and_then (demangle_types (λ i. demangle_type g f i) count rest')
            λ positional rest''. ok (Ty.parameterized base positional no_named) rest''
    | generic_param ↦ and_then (read_decimal s) λ index rest. ok (Ty.generic_param index []) rest
    | inferred ↦ and_then (read_decimal s) λ id rest. inferred_type id rest
  ]
