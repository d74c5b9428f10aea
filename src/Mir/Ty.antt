-- ===== src/Mir/Ty.antt =====
-- mir/src/ty.rs. A `MirTypeId` is an interned handle, equal to another exactly where the types
-- are, so the handle is the type itself.
use nitrate.Prelude.{ℕ, Bool, String, List}

-- A cell of a struct's layout: a field, or padding of some bytes.
pub data MirStructLayoutCell : Type 0 where
  field : String → MirStructLayoutCell
  padding : ℕ → MirStructLayoutCell

mutual
  pub data MirType : Type 0 where
    never unit bool : MirType
    u8 u16 u32 u64 u128 usize : MirType
    i8 i16 i32 i64 i128 : MirType
    f32 f64 : MirType
    array : MirType → ℕ → MirType
    tuple : MirTypes → MirType
    struct : String → MirFields → List MirStructLayoutCell → MirType
    enum : String → MirEnumVariants → MirType
    function : MirFields → MirType → Bool → MirType
    reference : Bool → Bool → MirType → MirType
    slice_ref : Bool → Bool → MirType → MirType
    pointer : Bool → Bool → MirType → MirType
    slice_ptr : Bool → Bool → MirType → MirType
    range str : MirType

  pub data MirTypes : Type 0 where
    nil : MirTypes
    cons : MirType → MirTypes → MirTypes

  -- Names with their types: the fields of a struct and the parameters of a function.
  pub data MirFields : Type 0 where
    nil_field : MirFields
    cons_field : String → MirType → MirFields → MirFields

  pub data MirEnumVariants : Type 0 where
    nil_variant : MirEnumVariants
    bare_variant : String → MirEnumVariants → MirEnumVariants
    payload_variant : String → MirType → MirEnumVariants → MirEnumVariants
