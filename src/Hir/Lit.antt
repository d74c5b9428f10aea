-- ===== src/Hir/Lit.antt =====
-- expr.rs of the HIR: literals. An integer literal holds its bits in two's complement, a float its
-- bits in IEEE 754.
use nitrate.Prelude.{ℕ, ◌-◌, ◌/◌, ◌^◌, Bool, true, false, Option, none, some, ltb, if◌then◌else◌}

pub data Lit : Type 0 where
  unit : Lit
  bool : Bool → Lit
  i8 i16 i32 i64 i128 u8 u16 u32 u64 u128 f32 f64 : ℕ → Lit
  -- the bits of the target's addresses, and the value
  usize : ℕ → ℕ → Lit

-- The integer types, as the arms of the operations name them.
pub data IntTy : Type 0 where
  i8 i16 i32 i64 i128 u8 u16 u32 u64 u128 : IntTy
  usize : ℕ → IntTy

unfoldable pub literal : IntTy → ℕ → Lit
literal IntTy.i8 a = Lit.i8 a
literal IntTy.i16 a = Lit.i16 a
literal IntTy.i32 a = Lit.i32 a
literal IntTy.i64 a = Lit.i64 a
literal IntTy.i128 a = Lit.i128 a
literal IntTy.u8 a = Lit.u8 a
literal IntTy.u16 a = Lit.u16 a
literal IntTy.u32 a = Lit.u32 a
literal IntTy.u64 a = Lit.u64 a
literal IntTy.u128 a = Lit.u128 a
literal (IntTy.usize bits) a = Lit.usize bits a

-- The bits of the Rust type: a `USize` is a `u64`.
unfoldable pub width : IntTy → ℕ
width IntTy.i8 = 8
width IntTy.i16 = 16
width IntTy.i32 = 32
width IntTy.i64 = 64
width IntTy.i128 = 128
width IntTy.u8 = 8
width IntTy.u16 = 16
width IntTy.u32 = 32
width IntTy.u64 = 64
width IntTy.u128 = 128
width (IntTy.usize _) = 64

unfoldable pub is_signed : IntTy → Bool
is_signed IntTy.i8 = true
is_signed IntTy.i16 = true
is_signed IntTy.i32 = true
is_signed IntTy.i64 = true
is_signed IntTy.i128 = true
is_signed _ = false

unfoldable pub int_ty : Lit → Option IntTy
int_ty (Lit.i8 _) = some IntTy.i8
int_ty (Lit.i16 _) = some IntTy.i16
int_ty (Lit.i32 _) = some IntTy.i32
int_ty (Lit.i64 _) = some IntTy.i64
int_ty (Lit.i128 _) = some IntTy.i128
int_ty (Lit.u8 _) = some IntTy.u8
int_ty (Lit.u16 _) = some IntTy.u16
int_ty (Lit.u32 _) = some IntTy.u32
int_ty (Lit.u64 _) = some IntTy.u64
int_ty (Lit.u128 _) = some IntTy.u128
int_ty (Lit.usize bits _) = some (IntTy.usize bits)
int_ty _ = none

unfoldable pub size_of : Lit → ℕ
size_of Lit.unit = 0
size_of (Lit.bool _) = 1
size_of (Lit.i8 _) = 1
size_of (Lit.i16 _) = 2
size_of (Lit.i32 _) = 4
size_of (Lit.i64 _) = 8
size_of (Lit.i128 _) = 16
size_of (Lit.u8 _) = 1
size_of (Lit.u16 _) = 2
size_of (Lit.u32 _) = 4
size_of (Lit.u64 _) = 8
size_of (Lit.u128 _) = 16
size_of (Lit.f32 _) = 4
size_of (Lit.f64 _) = 8
size_of (Lit.usize bits _) = bits / 8

-- The least natural number that a type does not hold.
unfoldable pub limit : IntTy → ℕ
limit t = if is_signed t then 2 ^ (width t - 1) else 2 ^ width t

-- `new_integer` at a value that is not negative.
unfoldable pub new_integer : Lit → ℕ → Option Lit
new_integer ty value = elim (int_ty ty) [
  | none ↦ none
  | some t ↦ if ltb value (limit t) then some (literal t value) else none
]
