-- ===== src/Layout.antt =====
-- The sizes, alignments and strides of types, src/translation/src/hir_type/src: ty_size.rs,
-- ty_alignment.rs and ty_stride.rs. Arithmetic that leaves 64 bits panics.
pub mod Ensures
pub mod Align
pub mod Stride
pub mod Packed
pub mod Known
pub mod Ranks
pub mod Total
mod Tests
use nitrate.Prelude.{
  ℕ, zero, suc, ◌+◌, ◌-◌, ◌*◌, ◌%◌, ◌^◌, Bool, true, false, none, some, List, [], ◌∷◌, map, leb,
  ◌==◌, if◌then◌else◌, length, get_elem?, max,
}
use nitrate.Hir.Ty.{
  Ty, Tys, never, unit, bool, u8, u16, u32, u64, u128, usize, i8, i16, i32, i64, i128, f32, f64,
  array, tuple, struct, enum, type_alias, refine, unresolved_array, unresolved_refine, slice_ref,
  slice_ptr, parameterized, inferred_float, inferred_integer, inferred, generic_param, range, str,
  PtrSize, StructDef, EnumDef, TypeAliasDef,
}

pub data LayoutError : Type 0 where
  not_inferred unresolved_symbol uninstantiated_generic : LayoutError

-- A definition of a type can name the type itself; then the code does not return, and no fuel is
-- enough.
pub data Layout : Type 0 where
  ok : ℕ → Layout
  err : LayoutError → Layout
  panic out_of_fuel : Layout

infixl 10 ◌>>=◌
abbrev pub ◌>>=◌ : Layout → (ℕ → Layout) → Layout
ok a >>= f = f a
err e >>= f = err e
panic >>= f = panic
out_of_fuel >>= f = out_of_fuel

-- The pointer size, and the store of definitions.
pub record LayoutCtx : Type 0 where
  pub ptr_size : PtrSize
  pub structs : List StructDef
  pub enums : List EnumDef
  pub aliases : List TypeAliasDef

unfoldable pub ptr_bytes : LayoutCtx → ℕ
ptr_bytes ctx = elim ctx.ptr_size [ PtrSize.u32 ↦ 4 | PtrSize.u64 ↦ 8 ]

unfoldable pub checked : ℕ → Layout
checked n = if leb (2 ^ 64) n then panic else ok n

unfoldable pub next_multiple_of : ℕ → ℕ → Layout
unfolding checked
next_multiple_of n a =
    if a == 0 then panic else if n % a == 0 then ok n else checked (n + (a - n % a))

abbrev pub elements : Tys → List Ty
elements Tys.[] = []
elements (Tys.◌∷◌ t ts) = t ∷ elements ts

unfoldable pub is_packed : StructDef → Bool
is_packed d = elim d.attributes [ [] ↦ false | _ ∷ _ ↦ true ]

abbrev pub field_types : StructDef → List Ty
field_types d = map (λ f. f.ty) d.fields

abbrev pub variant_types : EnumDef → List Ty
variant_types d = map (λ v. v.ty) d.variants

-- A handle names a definition of the store; the code cannot have another one.
abbrev pub find_def {ℓ} : {A : Type ℓ} → List A → ℕ → (A → Layout) → Layout
find_def ds i k = elim (get_elem? ds i) [ none ↦ panic | some d ↦ k d ]

unfoldable pub discrim_align : ℕ → ℕ
discrim_align n =
    if leb n 256 then 1 else if leb n 65536 then 2 else if leb n 4294967296 then 4 else 8

unfoldable pub discrim_size : ℕ → ℕ
discrim_size n =
    if leb n 1
    then 0
    else if leb n 256
    then 1
    else if leb n 65536
    then 2
    else if leb n 4294967296
    then 4
    else 8

-- The largest number of some types, and no less than the one given.
unfoldable pub max_over : (Ty → Layout) → ℕ → List Ty → Layout
max_over f n [] = ok n
max_over f n (t ∷ ts) = do m ← f t; max_over f (max n m) ts

unfoldable pub get_align_of : ℕ → LayoutCtx → Ty → Layout
unfolding max_over ptr_bytes discrim_align is_packed
get_align_of zero ctx t = out_of_fuel
get_align_of (suc f) ctx never = ok 1
get_align_of (suc f) ctx unit = ok 1
get_align_of (suc f) ctx bool = ok 1
get_align_of (suc f) ctx u8 = ok 1
get_align_of (suc f) ctx i8 = ok 1
get_align_of (suc f) ctx u16 = ok 2
get_align_of (suc f) ctx i16 = ok 2
get_align_of (suc f) ctx u32 = ok 4
get_align_of (suc f) ctx i32 = ok 4
get_align_of (suc f) ctx f32 = ok 4
get_align_of (suc f) ctx u64 = ok 8
get_align_of (suc f) ctx i64 = ok 8
get_align_of (suc f) ctx f64 = ok 8
get_align_of (suc f) ctx u128 = ok 16
get_align_of (suc f) ctx i128 = ok 16
get_align_of (suc f) ctx usize = ok (ptr_bytes ctx)
get_align_of (suc f) ctx (array t n) =
    let element = get_align_of f ctx t in if n == 0 then ok 1 else element
get_align_of (suc f) ctx (tuple ts) = max_over (get_align_of f ctx) 1 (elements ts)
get_align_of (suc f) ctx (struct i) = find_def ctx.structs i λ d.
    let fields = max_over (get_align_of f ctx) 1 (field_types d) in
    if is_packed d then ok 1 else fields
get_align_of (suc f) ctx (enum i) = find_def ctx.enums i λ d. do
  a ← max_over (get_align_of f ctx) 1 (variant_types d)
  ok (max a (discrim_align (length d.variants)))
get_align_of (suc f) ctx (type_alias i) = find_def ctx.aliases i λ d. get_align_of f ctx d.type_id
get_align_of (suc f) ctx (refine t _ _) = get_align_of f ctx t
get_align_of (suc f) ctx (unresolved_array t _) = get_align_of f ctx t
get_align_of (suc f) ctx (unresolved_refine t _ _) = get_align_of f ctx t
get_align_of (suc f) ctx range = ok 1
get_align_of (suc f) ctx (parameterized _ _) = err uninstantiated_generic
get_align_of (suc f) ctx (generic_param _ _) = err uninstantiated_generic
get_align_of (suc f) ctx inferred_integer = err not_inferred
get_align_of (suc f) ctx inferred_float = err not_inferred
get_align_of (suc f) ctx (inferred _) = err not_inferred
get_align_of (suc f) ctx _ = ok (ptr_bytes ctx)

-- The stride of a type of a size and an alignment; the alignment of an empty type is not asked
-- for.
unfoldable pub stride_of : Layout → Layout → Layout
unfolding next_multiple_of
stride_of size align = do
  n ← size
  let padded = (do a ← align; next_multiple_of n a) in if n == 0 then ok 0 else padded

-- Types one behind the other from an offset, each at the next multiple of its alignment.
unfoldable pub place_padded : (Ty → Layout) → (Ty → Layout) → ℕ → List Ty → Layout
unfolding next_multiple_of checked
place_padded size align offset [] = ok offset
place_padded size align offset (t ∷ ts) = do
  n ← size t
  a ← align t
  start ← next_multiple_of offset a
  end ← checked (start + n)
  place_padded size align end ts

-- The same without padding.
unfoldable pub place_packed : (Ty → Layout) → ℕ → List Ty → Layout
unfolding checked
place_packed size offset [] = ok offset
place_packed size offset (t ∷ ts) = do
  n ← size t
  end ← checked (offset + n)
  place_packed size end ts

unfoldable pub get_size_of : ℕ → LayoutCtx → Ty → Layout
unfolding get_align_of stride_of place_padded place_packed max_over ptr_bytes discrim_align
    discrim_size is_packed checked next_multiple_of
get_size_of zero ctx t = out_of_fuel
get_size_of (suc f) ctx never = ok 0
get_size_of (suc f) ctx unit = ok 0
get_size_of (suc f) ctx bool = ok 1
get_size_of (suc f) ctx u8 = ok 1
get_size_of (suc f) ctx i8 = ok 1
get_size_of (suc f) ctx u16 = ok 2
get_size_of (suc f) ctx i16 = ok 2
get_size_of (suc f) ctx u32 = ok 4
get_size_of (suc f) ctx i32 = ok 4
get_size_of (suc f) ctx f32 = ok 4
get_size_of (suc f) ctx u64 = ok 8
get_size_of (suc f) ctx i64 = ok 8
get_size_of (suc f) ctx f64 = ok 8
get_size_of (suc f) ctx u128 = ok 16
get_size_of (suc f) ctx i128 = ok 16
get_size_of (suc f) ctx usize = ok (ptr_bytes ctx)
get_size_of (suc f) ctx (array t n) = do
  stride ← stride_of (get_size_of f ctx t) (get_align_of f ctx t)
  checked (stride * n)
get_size_of (suc f) ctx (tuple ts) =
    place_padded (get_size_of f ctx) (get_align_of f ctx) 0 (elements ts)
get_size_of (suc f) ctx (struct i) = find_def ctx.structs i λ d.
    let packed = place_packed (get_size_of f ctx) 0 (field_types d) in
    let padded = place_padded (get_size_of f ctx) (get_align_of f ctx) 0 (field_types d) in
    if is_packed d then packed else padded
get_size_of (suc f) ctx (enum i) = find_def ctx.enums i λ d. do
  payload ← max_over (get_size_of f ctx) 0 (variant_types d)
  start ← next_multiple_of payload (discrim_align (length d.variants))
  checked (start + discrim_size (length d.variants))
get_size_of (suc f) ctx (type_alias i) = find_def ctx.aliases i λ d. get_size_of f ctx d.type_id
get_size_of (suc f) ctx (refine t _ _) = get_size_of f ctx t
get_size_of (suc f) ctx (unresolved_array _ _) = err not_inferred
get_size_of (suc f) ctx (unresolved_refine t _ _) = get_size_of f ctx t
get_size_of (suc f) ctx range = ok 0
get_size_of (suc f) ctx str = ok (ptr_bytes ctx * 2)
get_size_of (suc f) ctx (slice_ref _ _ _ _) = ok (ptr_bytes ctx * 2)
get_size_of (suc f) ctx (slice_ptr _ _ _ _) = ok (ptr_bytes ctx * 2)
get_size_of (suc f) ctx (parameterized _ _) = err uninstantiated_generic
get_size_of (suc f) ctx (generic_param _ _) = err uninstantiated_generic
get_size_of (suc f) ctx inferred_integer = err not_inferred
get_size_of (suc f) ctx inferred_float = err not_inferred
get_size_of (suc f) ctx (inferred _) = err not_inferred
get_size_of (suc f) ctx _ = ok (ptr_bytes ctx)

unfoldable pub get_stride_of : ℕ → LayoutCtx → Ty → Layout
unfolding stride_of get_size_of get_align_of
get_stride_of f ctx t = stride_of (get_size_of f ctx t) (get_align_of f ctx t)
