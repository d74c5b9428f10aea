-- ===== src/BorrowCheck/Access/Escape.antt =====
-- Borrows that are returned.
use nitrate.Prelude.{true, false, String, ◌≡◌, refl, inl, inr, Bool-cases}
use mathlib.Core.List.{Memᴰ}
use nitrate.Prelude.Classes.{contains}
use nitrate.Mir.Place.{Place, LocalId, local, static_, deref, field, index, downcast, place_has_eq}
use nitrate.BorrowCheck.Places.{
  is_escapable, first_projection_is_deref, root_place, place_to_string,
}
use nitrate.BorrowCheck.Error.{borrow_of_local_escape}
use nitrate.BorrowCheck.State.{State, Checker, Location, BorrowRecord}
use nitrate.BorrowCheck.Access.{escape_conflict, check_returned_borrow}
use nitrate.BorrowCheck.State.Reported.{Reported, IsKeyed, report_each-Reported, report_each_quiet}

-- A place whose outermost projection is no deref, and whose root is a local.
pub data IsLocalPart : Place → Type 0 where
  a_local : (i : LocalId) → IsLocalPart (local i)
  a_field :
      (b : Place) (n : String) (i : LocalId) → root_place b ≡ local i → IsLocalPart (field b n)
  an_element : (b x : Place) (i : LocalId) → root_place b ≡ local i → IsLocalPart (index b x)
  a_variant :
      (b : Place) (n : String) (i : LocalId) → root_place b ≡ local i → IsLocalPart (downcast b n)

-- A place whose outermost projection is a deref, or whose root is a static.
pub data IsElsewhere : Place → Type 0 where
  a_pointee : (b : Place) → IsElsewhere (deref b)
  of_static : (p : Place) (n : String) → root_place p ≡ static_ n → IsElsewhere p

IsLocalPart-is_escapable : (p : Place) → IsLocalPart p → is_escapable p ≡ false
unfolding is_escapable first_projection_is_deref root_place
IsLocalPart-is_escapable p (a_local i) = refl
IsLocalPart-is_escapable p (a_field b n i h) = rw h refl
IsLocalPart-is_escapable p (an_element b x i h) = rw h refl
IsLocalPart-is_escapable p (a_variant b n i h) = rw h refl

IsElsewhere-is_escapable : (p : Place) → IsElsewhere p → is_escapable p ≡ true
unfolding is_escapable first_projection_is_deref
IsElsewhere-is_escapable p (a_pointee b) = refl
IsElsewhere-is_escapable p (of_static _ n h) = elim (Bool-cases (first_projection_is_deref p)) [
  | inl deref_ ↦ rw deref_ refl
  | inr other ↦ rw (other, h) refl
]

-- On a checker whose errors and keys stand side by side: returning a place that holds a borrow of a
-- local, or of a field, an element or a variant with a local as its root, puts an error among those
-- of the checker, or finds it there: also where a deref stands below the outermost projection, and
-- the memory is not that of the frame. Where every borrow that the place holds is of a place with a
-- deref outermost, or with a static as its root, the checker stays as it was.
pub check_returned_borrow-Reported :
    (p : Place) (loc : Location) (c : Checker) (s : State)
    → IsKeyed c
    → ((br : BorrowRecord)
        → Memᴰ br s.borrows
        → contains br.holders p ≡ true
        → IsLocalPart br.source
        → Reported
            (borrow_of_local_escape
              (place_to_string br.source)
              "the referenced local dies when the function returns")
            loc
            (check_returned_borrow p loc c s))
      × (((br : BorrowRecord)
            → Memᴰ br s.borrows
            → contains br.holders p ≡ true
            → IsElsewhere br.source)
          → check_returned_borrow p loc c s ≡ c)
unfolding check_returned_borrow escape_conflict
check_returned_borrow-Reported p loc c s keyed = (
  λ br active held part.
      report_each-Reported (escape_conflict p) loc _ c keyed active
        (rw (held, IsLocalPart-is_escapable br.source part)),
  λ elsewhere. report_each_quiet (escape_conflict p) loc s.borrows c (λ br active.
      elim (Bool-cases (contains br.holders p)) [
        | inl held ↦
            rw
              (held, IsElsewhere-is_escapable br.source (elsewhere br active held), escape_conflict)
              refl
        | inr apart ↦ rw (apart, escape_conflict) refl
      ]),
)
