-- ===== src/BorrowCheck/Access/Checked.antt =====
-- What is checked of a place before it is read or borrowed: its initialization and its mutability.
use nitrate.Prelude.{String, not, ◌&&◌, none, some, ◌≡◌, inl, inr, Bool-cases, Option-cases}
use nitrate.Prelude.Classes.{string_eq}
use nitrate.Mir.Place.{Place, place_has_eq}
use nitrate.Mir.Body.{BorrowKind, MirModule}
use nitrate.BorrowCheck.Function.{FunctionData}
use nitrate.BorrowCheck.Flow.{LivenessInfo}
use nitrate.BorrowCheck.Places.{place_to_string, is_place_mutable}
use nitrate.BorrowCheck.Error.{BorrowError, ◌<>◌}
use nitrate.BorrowCheck.State.{State, Checker, Location, is_mutable, find_moved, find_uninit}
use nitrate.BorrowCheck.Access.{check_init, check_mutability}
use nitrate.BorrowCheck.State.Reported.{
  Reported, IsKeyed, report-IsKeyed, report-Reported, report-keeps_Reported,
}

module _ (moved_error uninit_error : String → String → BorrowError)
    (moved_suffix uninit_suffix : String) (p : Place) (s : State) (loc : Location) (c : Checker)
    (keyed : IsKeyed c) where
  pub check_init-IsKeyed :
      IsKeyed (check_init moved_error uninit_error moved_suffix uninit_suffix p s loc c)
  unfolding check_init
  check_init-IsKeyed = elim (Option-cases (find_moved p s)) [
    | inl live ↦ elim (Option-cases (find_uninit p s)) [
      | inl ready ↦ rw (live, ready, check_init) keyed
      | inr (u, found) ↦ rw (live, found, check_init) (report-IsKeyed _ loc c keyed)
    ]
    | inr (m, found) ↦ rw (found, check_init) (report-IsKeyed _ loc c keyed)
  ]

  pub check_init-moved :
      (anc : Place)
      → find_moved p s ≡ some anc
      → Reported
          (moved_error (place_to_string p) ("`" <> place_to_string anc <> moved_suffix))
          loc
          (check_init moved_error uninit_error moved_suffix uninit_suffix p s loc c)
  unfolding check_init
  check_init-moved anc moved = rw (moved, check_init) (report-Reported _ loc c keyed)

  pub check_init-uninit :
      (anc : Place)
      → find_moved p s ≡ none
      → find_uninit p s ≡ some anc
      → Reported
          (uninit_error (place_to_string p) ("`" <> place_to_string anc <> uninit_suffix))
          loc
          (check_init moved_error uninit_error moved_suffix uninit_suffix p s loc c)
  unfolding check_init
  check_init-uninit anc whole uninit =
      rw (whole, check_init) (rw uninit (report-Reported _ loc c keyed))

module _ (f : FunctionData) (m : MirModule) (l : LivenessInfo) (kind : BorrowKind) (p : Place)
    (loc : Location) (c : Checker) where
  pub check_mutability-IsKeyed : IsKeyed c → IsKeyed (check_mutability f m l kind p loc c)
  unfolding check_mutability
  check_mutability-IsKeyed k = elim (Bool-cases (is_mutable kind && not (is_place_mutable f m p))) [
    | inl bad ↦ rw bad (report-IsKeyed _ loc c k)
    | inr good ↦ rw good k
  ]

  pub check_mutability-keeps_Reported :
      (e : BorrowError) → Reported e loc c → Reported e loc (check_mutability f m l kind p loc c)
  unfolding check_mutability
  check_mutability-keeps_Reported e h =
      elim (Bool-cases (is_mutable kind && not (is_place_mutable f m p))) [
        | inl bad ↦ rw bad (report-keeps_Reported e _ loc loc c h)
        | inr good ↦ rw good h
      ]
