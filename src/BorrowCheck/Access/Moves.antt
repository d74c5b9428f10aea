-- ===== src/BorrowCheck/Access/Moves.antt =====
-- Places that are moved from or uninitialized are reported when they are used.
use nitrate.Prelude.{
  none, Bool, true, List, [], ◌∷◌, some, find?, ◌≡◌, ◌⊎◌, inl, inr, ◌∙◌, ap, arith, Bool-cases,
  Option-cases,
}
use nitrate.Prelude.Classes.{contains, insert, contains-insert, beq_self, string_eq}
use nitrate.Mir.Place.{Place, place_has_eq}
use nitrate.Mir.Body.{BorrowKind, MirModule}
use nitrate.BorrowCheck.Function.{FunctionData}
use nitrate.BorrowCheck.Flow.{LivenessInfo}
use nitrate.BorrowCheck.Places.{is_prefix, place_to_string, init_chain}
use nitrate.BorrowCheck.Places.Chain.{Needed, init_chain_iff}
use nitrate.BorrowCheck.Error.{
  use_after_move, use_before_init, borrow_of_moved, borrow_of_uninit, ◌<>◌,
}
use nitrate.BorrowCheck.State.{find_uninit, State, Checker, Location, find_moved}
use nitrate.BorrowCheck.Access.{
  deinitialize, read_place, borrow_place, read_conflict, borrow_conflict,
}
use nitrate.BorrowCheck.State.Reported.{Reported, IsKeyed, report_each-keeps_Reported}
use nitrate.BorrowCheck.Access.Checked.{
  check_init-moved, check_init-uninit, check_mutability-keeps_Reported,
}

find?-hit :
    (q : Place → Bool) (ms : List Place) (p : Place)
    → contains ms p ≡ true
    → q p ≡ true
    → (m : Place) × (find? q ms ≡ some m)
find?-hit q [] p h k = absurd (ground arith)
find?-hit q (m ∷ ms) p h k = elim (Bool-cases (q m)) [
  | inl hit ↦ (m, rw hit)
  | inr miss ↦ elim (Bool-cases (contains ms p)) [
    | inl later ↦ let (m', found) = find?-hit q ms p later k in (m', rw (miss, found))
    | inr never ↦ absurd (
        let is_m : place_has_eq.beq m p ≡ true = ground (arith, h, never) in
        let same = (place_has_eq.beq_iff m p).0 is_m in ground (arith, miss, k, ap q same))
  ]
]

find_moved-deinitialize :
    (p q : Place) (s : State)
    → is_prefix p q ≡ true
    → (anc : Place) × (find_moved q (deinitialize p s) ≡ some anc)
unfolding find_moved deinitialize
find_moved-deinitialize p q s h =
    find?-hit (λ m. is_prefix m q) (insert s.moved p) p
      (contains-insert s.moved p p ∙ ground (arith, beq_self p)) h

module _ (f : FunctionData) (m : MirModule) (l : LivenessInfo) (kind : BorrowKind) (move_out : Bool)
    (q dest : Place) (loc : Location) (c : Checker) (s : State) (keyed : IsKeyed c) where
  read_moved :
      (anc : Place)
      → find_moved q s ≡ some anc
      → Reported
          (use_after_move
            (place_to_string q)
            ("`" <> place_to_string anc <> "` was moved from earlier on this path"))
          loc
          (read_place q move_out loc c s).0
  unfolding read_place
  read_moved anc moved =
      report_each-keeps_Reported (read_conflict q move_out) loc _ loc _ _
        (check_init-moved use_after_move use_before_init _ _ q s loc c keyed anc moved)

  read_uninit :
      (anc : Place)
      → find_moved q s ≡ none
      → find_uninit q s ≡ some anc
      → Reported
          (use_before_init
            (place_to_string q)
            ("`" <> place_to_string anc <> "` is not initialized on this path"))
          loc
          (read_place q move_out loc c s).0
  unfolding read_place
  read_uninit anc whole uninit =
      report_each-keeps_Reported (read_conflict q move_out) loc _ loc _ _
        (check_init-uninit use_after_move use_before_init _ _ q s loc c keyed anc whole uninit)

  borrow_moved :
      (anc : Place)
      → find_moved q s ≡ some anc
      → Reported
          (borrow_of_moved
            (place_to_string q)
            ("`" <> place_to_string anc <> "` was moved from earlier"))
          loc
          (borrow_place f m l kind q dest loc c s).0
  unfolding borrow_place
  borrow_moved anc moved = report_each-keeps_Reported (borrow_conflict kind q) loc _ loc _ _ (
      check_mutability-keeps_Reported f m l kind q loc _ _
        (check_init-moved borrow_of_moved borrow_of_uninit _ _ q s loc c keyed anc moved))

  borrow_uninit :
      (anc : Place)
      → find_moved q s ≡ none
      → find_uninit q s ≡ some anc
      → Reported
          (borrow_of_uninit
            (place_to_string q)
            ("`" <> place_to_string anc <> "` is not initialized"))
          loc
          (borrow_place f m l kind q dest loc c s).0
  unfolding borrow_place
  borrow_uninit anc whole uninit =
      report_each-keeps_Reported (borrow_conflict kind q) loc _ loc _ _ (
        check_mutability-keeps_Reported f m l kind q loc _ _
          (check_init-uninit borrow_of_moved borrow_of_uninit _ _ q s loc c keyed anc whole uninit))

-- On a checker whose errors and keys stand side by side, a place that was moved out of puts an error
-- among those of the checker, or finds one of the same location and text there, when it, or a place
-- that it is a prefix of, is then read, moved or borrowed, whatever else the state holds.
pub moved-Reported :
    (f : FunctionData) (m : MirModule) (l : LivenessInfo) (kind : BorrowKind) (move_out : Bool)
    (p q dest : Place) (loc : Location) (c : Checker) (s : State)
    → IsKeyed c
    → is_prefix p q ≡ true
    → (anc : Place) × Reported
        (use_after_move
          (place_to_string q)
          ("`" <> place_to_string anc <> "` was moved from earlier on this path"))
        loc
        (read_place q move_out loc c (deinitialize p s)).0
      × Reported
          (borrow_of_moved
            (place_to_string q)
            ("`" <> place_to_string anc <> "` was moved from earlier"))
          loc
          (borrow_place f m l kind q dest loc c (deinitialize p s)).0
moved-Reported f m l kind move_out p q dest loc c s keyed h =
    let (anc, moved) = find_moved-deinitialize p q s h in
    (
      anc,
      read_moved f m l kind move_out q dest loc c (deinitialize p s) keyed anc moved,
      borrow_moved f m l kind move_out q dest loc c (deinitialize p s) keyed anc moved,
    )

find_uninit-Needed :
    (p q : Place) (s : State)
    → contains s.uninit p ≡ true
    → Needed p q
    → (anc : Place) × (find_uninit q s ≡ some anc)
unfolding find_uninit
find_uninit-Needed p q s h needed =
    find?-hit (λ anc. contains s.uninit anc) (init_chain q) p ((init_chain_iff q p).1 needed) h

-- On a checker whose errors and keys stand side by side, a place that an uninitialized place is
-- around, in its memory or as the pointer to it, puts an error among those of the checker, or finds
-- one of the same location and text there, when it is read, moved or borrowed: that it was moved
-- from, or else that it is not initialized.
pub uninit-Reported :
    (f : FunctionData) (m : MirModule) (l : LivenessInfo) (kind : BorrowKind) (move_out : Bool)
    (p q dest : Place) (loc : Location) (c : Checker) (s : State)
    → IsKeyed c
    → contains s.uninit p ≡ true
    → Needed p q
    → (anc : Place) × ((Reported
            (use_after_move
              (place_to_string q)
              ("`" <> place_to_string anc <> "` was moved from earlier on this path"))
            loc
            (read_place q move_out loc c s).0
          × Reported
              (borrow_of_moved
                (place_to_string q)
                ("`" <> place_to_string anc <> "` was moved from earlier"))
              loc
              (borrow_place f m l kind q dest loc c s).0)
        ⊎ (Reported
              (use_before_init
                (place_to_string q)
                ("`" <> place_to_string anc <> "` is not initialized on this path"))
              loc
              (read_place q move_out loc c s).0
            × Reported
                (borrow_of_uninit
                  (place_to_string q)
                  ("`" <> place_to_string anc <> "` is not initialized"))
                loc
                (borrow_place f m l kind q dest loc c s).0))
uninit-Reported f m l kind move_out p q dest loc c s keyed h needed =
    elim (Option-cases (find_moved q s)) [
      | inr (anc, moved) ↦ (
        anc,
        inl (
          read_moved f m l kind move_out q dest loc c s keyed anc moved,
          borrow_moved f m l kind move_out q dest loc c s keyed anc moved,
        ),
      )
      | inl whole ↦
          let (anc, uninit) = find_uninit-Needed p q s h needed in
          (
            anc,
            inr (
              read_uninit f m l kind move_out q dest loc c s keyed anc whole uninit,
              borrow_uninit f m l kind move_out q dest loc c s keyed anc whole uninit,
            ),
          )
    ]
