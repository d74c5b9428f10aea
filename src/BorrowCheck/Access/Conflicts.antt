-- ===== src/BorrowCheck/Access/Conflicts.antt =====
-- Every conflicting access is reported, and an access with no conflict reports nothing.
use nitrate.Prelude.{Bool, true, false, String, none, ◌≡◌, inl, inr, refl, Option-cases}
use mathlib.Core.List.{Memᴰ}
use nitrate.Prelude.Classes.{string_eq}
use nitrate.Mir.Place.{Place, place_has_eq}
use nitrate.Mir.Body.{BorrowKind, shared, mutable, MirModule}
use nitrate.BorrowCheck.Function.{FunctionData}
use nitrate.BorrowCheck.Flow.{LivenessInfo}
use nitrate.BorrowCheck.Places.{overlaps, place_to_string}
use nitrate.BorrowCheck.Error.{
  borrow_of_moved, borrow_of_uninit, BorrowError, use_after_move, use_before_init,
  mutable_borrow_conflict, shared_borrow_conflict, write_while_borrowed,
  read_while_mutably_borrowed, move_while_borrowed,
}
use nitrate.BorrowCheck.State.{
  State, Checker, Location, BorrowRecord, kind_str, is_mutable, report_each, find_moved,
  find_uninit,
}
use nitrate.BorrowCheck.Access.{
  is_exclusive, read_conflict, write_conflict, borrow_conflict, read_place, write_place,
  borrow_place, check_init, check_mutability, moved_parent,
}
use nitrate.BorrowCheck.State.Reported.{
  Reported, IsKeyed, report-keeps_Reported, report_each-Reported, report_each_quiet,
}
use nitrate.BorrowCheck.Access.Checked.{check_init-IsKeyed, check_mutability-IsKeyed}

module _ (p : Place) (loc : Location) (c : Checker) (s : State) (br : BorrowRecord)
    (keyed : IsKeyed c) (active : Memᴰ br s.borrows) (overlap : overlaps p br.source ≡ true) where
  write_conflict-Reported :
      Reported
        (write_while_borrowed
          (place_to_string p)
          (kind_str br.kind)
          "assigning while a borrow of the same memory is active")
        loc
        (write_place p loc c s)
  unfolding write_place write_conflict
  write_conflict-Reported = elim (Option-cases (moved_parent p s)) [
    | inl whole ↦ rw (whole, write_place) (report_each-Reported _ loc _ _ keyed active (rw overlap))
    | inr (anc, found) ↦
        rw (found, write_place)
          (report-keeps_Reported _ _ loc loc _
            (report_each-Reported (write_conflict p) loc _ _ keyed active (rw overlap)))
  ]

  move_conflict-Reported :
      Reported
        (move_while_borrowed
          (place_to_string p)
          (kind_str br.kind)
          "moving deinitializes the borrowed memory")
        loc
        (read_place p true loc c s).0
  unfolding read_place read_conflict
  move_conflict-Reported =
      report_each-Reported _ loc _ _ (check_init-IsKeyed _ _ _ _ p s loc c keyed) active
        (rw overlap)

  read_conflict-Reported :
      is_exclusive br ≡ true
      → Reported
          (read_while_mutably_borrowed
            (place_to_string p)
            "mutable"
            "reading while a mutable borrow is active")
          loc
          (read_place p false loc c s).0
  unfolding read_place read_conflict
  read_conflict-Reported x =
      report_each-Reported _ loc _ _ (check_init-IsKeyed _ _ _ _ p s loc c keyed) active
        (rw (overlap, x))

-- On a checker whose errors and keys stand side by side: where a borrow of overlapping memory is
-- active, a write puts its error among the errors of the checker, or finds one of the same location
-- and text there, and so does a move; a read does where the borrow is an activated mutable one.
pub access-Reported :
    (p : Place) (loc : Location) (c : Checker) (s : State) (br : BorrowRecord)
    → IsKeyed c
    → Memᴰ br s.borrows
    → overlaps p br.source ≡ true
    → Reported
        (write_while_borrowed
          (place_to_string p)
          (kind_str br.kind)
          "assigning while a borrow of the same memory is active")
        loc
        (write_place p loc c s)
      × Reported
          (move_while_borrowed
            (place_to_string p)
            (kind_str br.kind)
            "moving deinitializes the borrowed memory")
          loc
          (read_place p true loc c s).0
      × (is_exclusive br ≡ true
          → Reported
              (read_while_mutably_borrowed
                (place_to_string p)
                "mutable"
                "reading while a mutable borrow is active")
              loc
              (read_place p false loc c s).0)
access-Reported p loc c s br keyed active overlap = (
  write_conflict-Reported p loc c s br keyed active overlap,
  move_conflict-Reported p loc c s br keyed active overlap,
  read_conflict-Reported p loc c s br keyed active overlap,
)

-- On a checker whose errors and keys stand side by side: where a borrow of overlapping memory is
-- active, a mutable borrow puts its error among the errors of the checker, or finds one of the same
-- location and text there, and a shared borrow does where the active one is an activated mutable one.
pub borrow-Reported :
    (f : FunctionData) (m : MirModule) (l : LivenessInfo) (p dest : Place) (loc : Location)
    (c : Checker) (s : State) (br : BorrowRecord)
    → IsKeyed c
    → Memᴰ br s.borrows
    → overlaps p br.source ≡ true
    → Reported
        (mutable_borrow_conflict
          (place_to_string p)
          (kind_str br.kind)
          "a mutable borrow cannot coexist with any other borrow")
        loc
        (borrow_place f m l mutable p dest loc c s).0
      × (is_exclusive br ≡ true
          → Reported
              (shared_borrow_conflict
                (place_to_string p)
                "mutable"
                "a shared borrow cannot coexist with an active mutable borrow")
              loc
              (borrow_place f m l shared p dest loc c s).0)
unfolding borrow_place borrow_conflict is_mutable
borrow-Reported f m l p dest loc c s br keyed active overlap =
    let checked : (kind : BorrowKind)
        → IsKeyed (
            check_mutability f m l kind p loc (
              check_init borrow_of_moved borrow_of_uninit "` was moved from earlier"
                "` is not initialized" p s loc c)) =
      λ kind.
        check_mutability-IsKeyed f m l kind p loc _ (check_init-IsKeyed _ _ _ _ p s loc c keyed) in
    (
      report_each-Reported (borrow_conflict mutable p) loc _ _ (checked mutable) active
          (rw overlap),
      λ x.
          report_each-Reported (borrow_conflict shared p) loc _ _ (checked shared) active
            (rw (overlap, x)),
    )

check_init-quiet :
    (moved_error uninit_error : String → String → BorrowError) (moved_suffix uninit_suffix : String)
    (p : Place) (s : State) (loc : Location) (c : Checker)
    → find_moved p s ≡ none
    → find_uninit p s ≡ none
    → check_init moved_error uninit_error moved_suffix uninit_suffix p s loc c ≡ c
unfolding check_init
check_init-quiet me ue ms us p s loc c moved uninit = rw (moved, check_init) (rw uninit refl)

-- An access to a place that is neither moved from nor uninitialized, and that no active borrow
-- overlaps, leaves the checker as it was: no false alarm.
pub quiet_access :
    (p : Place) (loc : Location) (c : Checker) (s : State)
    → ((br : BorrowRecord) → Memᴰ br s.borrows → overlaps p br.source ≡ false)
    → find_moved p s ≡ none
    → find_uninit p s ≡ none
    → moved_parent p s ≡ none
    → ((read_place p false loc c s).0 ≡ c)
      × ((read_place p true loc c s).0 ≡ c)
      × (write_place p loc c s ≡ c)
unfolding read_place write_place read_conflict write_conflict check_init
quiet_access p loc c s apart moved uninit whole =
    let read : (b : Bool) → report_each (read_conflict p b) loc s.borrows c ≡ c = λ b.
      report_each_quiet (read_conflict p b) loc s.borrows c
        (λ br i. rw (apart br i, read_conflict)) in
    let write =
      report_each_quiet (write_conflict p) loc s.borrows c
        (λ br i. rw (apart br i, write_conflict)) in
    let init =
      check_init-quiet use_after_move use_before_init "` was moved from earlier on this path"
        "` is not initialized on this path" p s loc c moved uninit in
    (
      rw (init, read_place) (read false),
      rw (init, read_place) (read true),
      rw (whole, write_place) write,
    )
