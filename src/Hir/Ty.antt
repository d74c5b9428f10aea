-- ===== src/Hir/Ty.antt =====
-- ty.rs and item.rs of the HIR: types, and the definitions that they name. A handle to a type is
-- the type, a handle to a definition is its position in the store. Left out are spans, names of
-- parameters, attributes of functions, visibilities, generics and default values; a lifetime, a
-- bound and an expression are handles.
use nitrate.Prelude.{ℕ, String, List, Bool}
use nitrate.Hir.Lit.{Lit}

mutual
  pub data Ty : Type 0 where
    never unit bool : Ty
    u8 u16 u32 u64 u128 usize : Ty
    i8 i16 i32 i64 i128 : Ty
    f32 f64 : Ty
    array : Ty → ℕ → Ty
    tuple : Tys → Ty
    struct enum type_alias : ℕ → Ty
    refine : Ty → Lit → Lit → Ty
    unresolved_array : Ty → ℕ → Ty
    unresolved_refine : Ty → ℕ → ℕ → Ty
    function : Tys → Ty → Ty
    -- lifetime, exclusive, mutable, and what is referred to
    reference slice_ref pointer slice_ptr : ℕ → Bool → Bool → Ty → Ty
    trait_object : List ℕ → Ty
    parameterized : Ty → Tys → Ty
    inferred_float inferred_integer : Ty
    inferred : ℕ → Ty
    generic_param : ℕ → String → Ty
    range str : Ty

  pub data Tys : Type 0 where
    [] : Tys
    ◌∷◌ : Ty → Tys → Tys

pub data PtrSize : Type 0 where
  u32 u64 : PtrSize

pub data StructAttribute : Type 0 where
  packed : StructAttribute

pub data StructFieldAttribute : Type 0 where
  align : ℕ → StructFieldAttribute

pub record StructField : Type 0 where
  pub attributes : List StructFieldAttribute
  pub name : String
  pub ty : Ty

-- The fields are in the order of their names.
pub record StructDef : Type 0 where
  pub attributes : List StructAttribute
  pub fields : List StructField

pub record EnumVariant : Type 0 where
  pub name : String
  pub ty : Ty

pub record EnumDef : Type 0 where
  pub variants : List EnumVariant

pub record TypeAliasDef : Type 0 where
  pub type_id : Ty
