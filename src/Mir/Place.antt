-- ===== src/Mir/Place.antt =====
-- mir/src/place.rs. A `LocalId` is the number of a slot in the store.
use text.Mathlib.Text.{◌==◌ as str_eq}
use text.Mathlib.TextEquality.{eq_iff}
use nitrate.Prelude.{ℕ, Bool, true, false, ◌&&◌, String, ◌==◌, ==_iff, ◌≡◌, ◌↔◌, arith}
use nitrate.Prelude.Classes.{Eq}

abbrev pub LocalId : Type 0
LocalId = ℕ

-- `static_` for `Static`, `Index base index`, and names as texts.
pub data Place : Type 0 where
  local : LocalId → Place
  static_ : String → Place
  deref : Place → Place
  field : Place → String → Place
  index : Place → Place → Place
  downcast : Place → String → Place

-- The derived `PartialEq`.
unfoldable pub place_eq : Place → Place → Bool
place_eq (local i) (local j) = i == j
place_eq (static_ s) (static_ t) = str_eq s t
place_eq (deref p) (deref q) = place_eq p q
place_eq (field p s) (field q t) = place_eq p q && str_eq s t
place_eq (index p i) (index q j) = place_eq p q && place_eq i j
place_eq (downcast p s) (downcast q t) = place_eq p q && str_eq s t
place_eq _ _ = false

pub place_eq_iff : (p q : Place) → (place_eq p q ≡ true) ↔ (p ≡ q)
unfolding place_eq
place_eq_iff (local i) (local j) = ground (arith, ==_iff i j)
place_eq_iff (static_ s) (static_ t) = ground (arith, eq_iff s t)
place_eq_iff (deref p) (deref q) = ground (arith, place_eq_iff p q)
place_eq_iff (field p s) (field q t) = ground (arith, place_eq_iff p q, eq_iff s t)
place_eq_iff (index p i) (index q j) = ground (arith, place_eq_iff p q, place_eq_iff i j)
place_eq_iff (downcast p s) (downcast q t) = ground (arith, place_eq_iff p q, eq_iff s t)
place_eq_iff _ _ = ground arith

instance abbrev pub place_has_eq : Eq Place
place_has_eq = record { beq = place_eq; beq_iff = place_eq_iff }
