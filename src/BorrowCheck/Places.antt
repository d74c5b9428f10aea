-- ===== src/BorrowCheck/Places.antt =====
-- place.rs: what a place overlaps, what must be initialized before it is used, and its type.
pub mod Order
pub mod Chain
use nitrate.Prelude.{
  ℕ, Bool, true, false, ◌||◌, String, List, [], ◌∷◌, Option, none, some, if◌then◌else◌,
}
use nitrate.Prelude.Text.{parse_usize}
use nitrate.Mir.Ty
use nitrate.Mir.Ty.{MirType, MirTypes, MirFields, MirEnumVariants}
use nitrate.Mir.Place.{Place, local, static_, deref, field, index, downcast, place_eq}
use nitrate.Mir.Body.{MirModule, MirGlobal}
use nitrate.BorrowCheck.Function.{FunctionData, local_ty, local_is_mutable, local_display_name}
use mathlib.Core.Option
use Prim.Native.String
use text.Mathlib.Text.{◌==◌ as str_eq}

unfoldable pub root_place : Place → Place
root_place (deref base) = root_place base
root_place (field base _) = root_place base
root_place (index base _) = root_place base
root_place (downcast base _) = root_place base
root_place p = p

unfoldable pub first_projection_is_deref : Place → Bool
first_projection_is_deref (deref _) = true
first_projection_is_deref _ = false

-- The base of a deref's prefix, `prefix` taken apart: the inner `match` of the deref case.
unfoldable pub is_prefix : Place → Place → Bool
is_prefix prefix (field base name) = place_eq prefix (field base name) || is_prefix prefix base
is_prefix prefix (index base i) = place_eq prefix (index base i) || is_prefix prefix base
is_prefix prefix (downcast base name) =
    place_eq prefix (downcast base name) || is_prefix prefix base
is_prefix (deref pbase) (deref base) = place_eq (deref pbase) (deref base) || is_prefix pbase base
is_prefix prefix other = place_eq prefix other

unfoldable pub overlaps : Place → Place → Bool
overlaps a b = is_prefix a b || is_prefix b a

unfoldable pub init_chain : Place → List Place
init_chain (field base name) = field base name ∷ init_chain base
init_chain (index base i) = index base i ∷ init_chain base
init_chain (downcast base name) = downcast base name ∷ init_chain base
init_chain (deref base) = deref base ∷ base ∷ []
init_chain p = p ∷ []

is_static : Place → Bool
is_static (static_ _) = true
is_static _ = false

unfoldable pub is_escapable : Place → Bool
unfolding is_static
is_escapable p = if first_projection_is_deref p then true else is_static (root_place p)

-- The first global of that name, or else the string literal of that name.
find_global : String → List MirGlobal → Option MirType
find_global name [] = none
find_global name (g ∷ gs) = if str_eq g.name name then some g.ty else find_global name gs

find_string : String → List (record { name : String; bytes : List ℕ }) → Option MirType
find_string name [] = none
find_string name (g ∷ gs) =
    if str_eq g.name name then some (Ty.slice_ref false false Ty.u8) else find_string name gs

unfoldable pub static_type : String → MirModule → Option MirType
unfolding find_global find_string
static_type name m = elim (find_global name m.globals) [
  | some t ↦ some t
  | none ↦ find_string name m.string_globals
]

unfoldable pub deref_pointee : MirType → Option MirType
deref_pointee (Ty.reference _ _ to) = some to
deref_pointee (Ty.pointer _ _ to) = some to
deref_pointee (Ty.slice_ref _ _ element_type) = some element_type
deref_pointee (Ty.slice_ptr _ _ element_type) = some element_type
deref_pointee Ty.str = some Ty.u8
deref_pointee _ = none

find_field : String → MirFields → Option MirType
find_field name Ty.nil_field = none
find_field name (Ty.cons_field n t fs) = if str_eq n name then some t else find_field name fs

type_at : MirTypes → ℕ → Option MirType
type_at Ty.nil i = none
type_at (Ty.cons t ts) Prim.Native.Nat.zero = some t
type_at (Ty.cons t ts) (Prim.Native.Nat.suc i) = type_at ts i

unfoldable pub field_type : MirType → String → Option MirType
unfolding find_field type_at
field_type (Ty.struct _ fields _) name = find_field name fields
field_type (Ty.tuple element_types) name = Option.bind (parse_usize name) (type_at element_types)
field_type _ name = none

unfoldable pub element_type : MirType → Option MirType
element_type (Ty.array t _) = some t
element_type (Ty.slice_ref _ _ t) = some t
element_type (Ty.slice_ptr _ _ t) = some t
element_type _ = none

-- The payload of the first variant of that name.
find_payload : String → MirEnumVariants → Option MirType
find_payload name Ty.nil_variant = none
find_payload name (Ty.bare_variant n vs) = if str_eq n name then none else find_payload name vs
find_payload name (Ty.payload_variant n t vs) =
    if str_eq n name then some t else find_payload name vs

unfoldable pub variant_payload_type : MirType → String → Option MirType
unfolding find_payload
variant_payload_type (Ty.enum _ variants) name = find_payload name variants
variant_payload_type _ name = none

module _ (f : FunctionData) (m : MirModule) where
  unfoldable pub type_of : Place → Option MirType
  type_of (local id) = local_ty f id
  type_of (static_ name) = static_type name m
  type_of (deref base) = Option.bind (type_of base) deref_pointee
  type_of (field base name) = Option.bind (type_of base) (λ t. field_type t name)
  type_of (index base _) = Option.bind (type_of base) element_type
  type_of (downcast base name) = Option.bind (type_of base) (λ t. variant_payload_type t name)

unfoldable pub is_reference_ty : MirType → Bool
is_reference_ty (Ty.reference _ _ _) = true
is_reference_ty (Ty.slice_ref _ _ _) = true
is_reference_ty (Ty.pointer _ _ _) = true
is_reference_ty (Ty.slice_ptr _ _ _) = true
is_reference_ty Ty.str = true
is_reference_ty _ = false

unfoldable pub reference_mutability : MirType → Option Bool
reference_mutability (Ty.reference _ mutable _) = some mutable
reference_mutability (Ty.slice_ref _ mutable _) = some mutable
reference_mutability (Ty.pointer _ mutable _) = some mutable
reference_mutability (Ty.slice_ptr _ mutable _) = some mutable
reference_mutability _ = none

module _ (f : FunctionData) (m : MirModule) where
  unfoldable pub is_reference_typed : Place → Bool
  is_reference_typed p = elim (type_of f m p) [ some t ↦ is_reference_ty t | none ↦ false ]

  -- The loop ends at the root or at the first deref from the outside.
  unfoldable pub is_place_mutable : Place → Bool
  is_place_mutable (deref base) = elim (Option.bind (type_of f m base) reference_mutability) [
    | some b ↦ b
    | none ↦ false
  ]
  is_place_mutable (field base _) = is_place_mutable base
  is_place_mutable (index base _) = is_place_mutable base
  is_place_mutable (downcast base _) = is_place_mutable base
  is_place_mutable (local id) = local_is_mutable f id
  is_place_mutable (static_ _) = false

infixr 65 ◌<>◌
abbrev ◌<>◌ : String → String → String
s <> t = String.◌++◌ s t

unfoldable pub place_to_string : Place → String
place_to_string (local id) = local_display_name id
place_to_string (static_ name) = "`" <> name <> "`"
place_to_string (deref base) = "*" <> place_to_string base
place_to_string (field base name) = place_to_string base <> "." <> name
place_to_string (index base i) = place_to_string base <> "[" <> place_to_string i <> "]"
place_to_string (downcast base name) = place_to_string base <> " as " <> name
