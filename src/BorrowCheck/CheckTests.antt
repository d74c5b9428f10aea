-- ===== src/BorrowCheck/CheckTests.antt =====
-- The theorems on accesses and on the worklist, at concrete states and functions.
use nitrate.Prelude.{
  true, false, ◌<◌, ◌≤◌, ◌≡◌, List, [], ◌∷◌, ◌++◌, none, some, length, inl, ◌⊎◌, refl, sym, subst,
  arith,
}
use mathlib.Core.List.{Memᴰ}
use nitrate.Prelude.Classes.{contains, string_eq}
use nitrate.Mir.Place.{Place, local, field, place_has_eq, place_eq}
use nitrate.Mir.Body.{shared, mutable, Terminator}
use nitrate.BorrowCheck.Places.{is_prefix, overlaps, init_chain, place_to_string}
use nitrate.BorrowCheck.Function.{block_at}
use nitrate.BorrowCheck.Error.{
  BorrowError, write_while_borrowed, move_while_borrowed, read_while_mutably_borrowed,
  mutable_borrow_conflict, shared_borrow_conflict, use_after_move, use_before_init, borrow_of_moved,
  borrow_of_uninit, borrow_of_local_escape, ◌<>◌,
}
use nitrate.BorrowCheck.State.{
  Checker, BorrowRecord, find_moved, find_uninit, push_worklist, kind_str,
}
use nitrate.BorrowCheck.Access.{
  check_returned_borrow, read_place, write_place, borrow_place, moved_parent, is_exclusive,
  deinitialize,
}
use nitrate.BorrowCheck.Access.Activation.{active, activate_one-Reported}
use nitrate.BorrowCheck.Access.{activate_one}
use nitrate.BorrowCheck.Error.{two_phase_activation_conflict}
use nitrate.BorrowCheck.Examples.{reserved, reserved_borrow}
use nitrate.Prelude.{find?, ◌==◌, ◌≢◌}
use nitrate.BorrowCheck.Access.Conflicts.{access-Reported, borrow-Reported, quiet_access}
use nitrate.BorrowCheck.State.Reported.{Reported, IsKeyed, no_keys}
use nitrate.BorrowCheck.Access.Moves.{moved-Reported, uninit-Reported}
use nitrate.BorrowCheck.Access.Escape.{IsLocalPart, IsElsewhere, check_returned_borrow-Reported}
use nitrate.BorrowCheck.Places.Chain.{of_field, itself}
use nitrate.BorrowCheck.Worklist.{initial_checker, step_block, pop_block, run_worklist}
use nitrate.BorrowCheck.Worklist.Skips.{entry_goto-skips}
use nitrate.BorrowCheck.WellFormed.Run.{IsChecker, Reaches, turn, here, next, reachable-IsChecker}
use nitrate.BorrowCheck.Invariant.Reports.{IsLog, reachable-IsLog}
use nitrate.BorrowCheck.Examples.{no_globals, no_liveness, skipped, start, borrowed, a_borrow}

-- A checker that has reported nothing.
abbrev checker : Checker
checker = initial_checker skipped

checker-IsKeyed : IsKeyed checker
unfolding initial_checker push_worklist
checker-IsKeyed = no_keys

borrow_overlaps : overlaps (local 0) a_borrow.source ≡ true
unfolding overlaps is_prefix place_eq
borrow_overlaps = refl

access-Reported_example :
    Reported
      (write_while_borrowed
        (place_to_string (local 0))
        (kind_str a_borrow.kind)
        "assigning while a borrow of the same memory is active")
      start
      (write_place (local 0) start checker borrowed)
    × Reported
        (move_while_borrowed
          (place_to_string (local 0))
          (kind_str a_borrow.kind)
          "moving deinitializes the borrowed memory")
        start
        (read_place (local 0) true start checker borrowed).0
    × (is_exclusive a_borrow ≡ true
        → Reported
            (read_while_mutably_borrowed
              (place_to_string (local 0))
              "mutable"
              "reading while a mutable borrow is active")
            start
            (read_place (local 0) false start checker borrowed).0)
access-Reported_example =
    access-Reported (local 0) start checker borrowed a_borrow checker-IsKeyed (Memᴰ.head refl)
      borrow_overlaps

borrow-Reported_example :
    Reported
      (mutable_borrow_conflict
        (place_to_string (local 0))
        (kind_str a_borrow.kind)
        "a mutable borrow cannot coexist with any other borrow")
      start
      (borrow_place skipped no_globals no_liveness mutable
        (local 0)
        (local 3)
        start
        checker
        borrowed).0
    × (is_exclusive a_borrow ≡ true
        → Reported
            (shared_borrow_conflict
              (place_to_string (local 0))
              "mutable"
              "a shared borrow cannot coexist with an active mutable borrow")
            start
            (borrow_place skipped no_globals no_liveness shared
              (local 0)
              (local 3)
              start
              checker
              borrowed).0)
borrow-Reported_example =
    borrow-Reported skipped no_globals no_liveness (local 0) (local 3) start checker borrowed
      a_borrow checker-IsKeyed (Memᴰ.head refl) borrow_overlaps

apart : (br : BorrowRecord) → Memᴰ br borrowed.borrows → overlaps (local 3) br.source ≡ false
unfolding overlaps is_prefix place_eq
apart br (Memᴰ.head same) = subst (λ b. overlaps (local 3) b.source ≡ false) (sym same) refl
apart br (Memᴰ.tail later) = elim later [ ]

not_moved : find_moved (local 3) borrowed ≡ none
unfolding find_moved
not_moved = refl

not_uninit : find_uninit (local 3) borrowed ≡ none
unfolding find_uninit init_chain place_eq
not_uninit = refl

no_moved_parent : moved_parent (local 3) borrowed ≡ none
unfolding moved_parent init_chain
no_moved_parent = refl

quiet_access_example :
    ((read_place (local 3) false start checker borrowed).0 ≡ checker)
    × ((read_place (local 3) true start checker borrowed).0 ≡ checker)
    × (write_place (local 3) start checker borrowed ≡ checker)
quiet_access_example =
    quiet_access (local 3) start checker borrowed apart not_moved not_uninit no_moved_parent

below : is_prefix (local 0) (field (local 0) "a") ≡ true
unfolding is_prefix place_eq
below = refl

moved-Reported_example :
    (anc : Place) × Reported
      (use_after_move
        (place_to_string (field (local 0) "a"))
        ("`" <> place_to_string anc <> "` was moved from earlier on this path"))
      start
      (read_place (field (local 0) "a") false start checker (deinitialize (local 0) borrowed)).0
    × Reported
        (borrow_of_moved
          (place_to_string (field (local 0) "a"))
          ("`" <> place_to_string anc <> "` was moved from earlier"))
        start
        (borrow_place skipped no_globals no_liveness shared
          (field (local 0) "a")
          (local 3)
          start
          checker
          (deinitialize (local 0) borrowed)).0
moved-Reported_example =
    moved-Reported skipped no_globals no_liveness shared false (local 0) (field (local 0) "a")
      (local 3) start checker borrowed checker-IsKeyed below

abbrev after_turn : Checker
after_turn =
    step_block skipped no_globals no_liveness 0
      (pop_block skipped no_globals no_liveness 0 [] (initial_checker skipped))

entry_waits : (initial_checker skipped).worklist ≡ 0 ∷ []
unfolding initial_checker push_worklist
entry_waits = refl

a_turn : Reaches skipped no_globals no_liveness (initial_checker skipped) after_turn
a_turn = next here (turn entry_waits)

reachable-IsChecker_example : IsChecker after_turn
reachable-IsChecker_example = reachable-IsChecker skipped no_globals no_liveness after_turn a_turn

reachable-IsLog_example :
    IsLog after_turn.errors after_turn.reported
    × ((more : List BorrowError) × (after_turn.errors ≡ (initial_checker skipped).errors ++ more))
reachable-IsLog_example =
    reachable-IsLog skipped no_globals no_liveness (initial_checker skipped) after_turn here a_turn

entry_inside : skipped.entry < length skipped.blocks
entry_inside = omega arith

all_params : length skipped.local_ids ≤ skipped.arg_count
all_params = omega arith

empty_entry : (block_at skipped skipped.entry).statements ≡ []
unfolding block_at
empty_entry = refl

entry_jumps : (block_at skipped skipped.entry).terminator ≡ Terminator.goto 1 []
unfolding block_at
entry_jumps = refl

entry_goto-skips_example :
    (c : Checker) × (run_worklist skipped no_globals no_liveness 2 (initial_checker skipped)
      ≡ some c)
    × (c.errors ≡ [])
entry_goto-skips_example =
    entry_goto-skips skipped no_globals no_liveness 1 0 entry_inside all_params empty_entry
      entry_jumps

still_uninit : contains borrowed.uninit (local 2) ≡ true
unfolding place_eq
still_uninit = refl

uninit-Reported_example :
    (anc : Place) × ((Reported
          (use_after_move
            (place_to_string (field (local 2) "a"))
            ("`" <> place_to_string anc <> "` was moved from earlier on this path"))
          start
          (read_place (field (local 2) "a") false start checker borrowed).0
        × Reported
            (borrow_of_moved
              (place_to_string (field (local 2) "a"))
              ("`" <> place_to_string anc <> "` was moved from earlier"))
            start
            (borrow_place skipped no_globals no_liveness shared
              (field (local 2) "a")
              (local 3)
              start
              checker
              borrowed).0)
      ⊎ (Reported
            (use_before_init
              (place_to_string (field (local 2) "a"))
              ("`" <> place_to_string anc <> "` is not initialized on this path"))
            start
            (read_place (field (local 2) "a") false start checker borrowed).0
          × Reported
              (borrow_of_uninit
                (place_to_string (field (local 2) "a"))
                ("`" <> place_to_string anc <> "` is not initialized"))
              start
              (borrow_place skipped no_globals no_liveness shared
                (field (local 2) "a")
                (local 3)
                start
                checker
                borrowed).0))
uninit-Reported_example =
    uninit-Reported skipped no_globals no_liveness shared false (local 2) (field (local 2) "a")
      (local 3) start checker borrowed checker-IsKeyed still_uninit (inl (of_field itself))

check_returned_borrow-Reported_example :
    ((br : BorrowRecord)
      → Memᴰ br borrowed.borrows
      → contains br.holders (local 1) ≡ true
      → IsLocalPart br.source
      → Reported
          (borrow_of_local_escape
            (place_to_string br.source)
            "the referenced local dies when the function returns")
          start
          (check_returned_borrow (local 1) start checker borrowed))
    × (((br : BorrowRecord)
          → Memᴰ br borrowed.borrows
          → contains br.holders (local 1) ≡ true
          → IsElsewhere br.source)
        → check_returned_borrow (local 1) start checker borrowed ≡ checker)
check_returned_borrow-Reported_example =
    check_returned_borrow-Reported (local 1) start checker borrowed checker-IsKeyed

the_reserved : find? (λ b. b.idx == 1) reserved.borrows ≡ some reserved_borrow
the_reserved = refl

activate_one-Reported_example :
    (find? (λ b. b.idx == 1) (activate_one start 1 checker reserved).1.borrows
      ≡ some (active reserved_borrow))
    × ((other : BorrowRecord)
        → Memᴰ other reserved.borrows
        → other.idx ≢ 1
        → overlaps reserved_borrow.source other.source ≡ true
        → Reported
            (two_phase_activation_conflict
              (place_to_string reserved_borrow.source)
              (kind_str other.kind)
              "the two-phase mutable borrow was activated while another borrow of the same memory was still active")
            start
            (activate_one start 1 checker reserved).0)
activate_one-Reported_example =
    activate_one-Reported start 1 checker reserved reserved_borrow checker-IsKeyed the_reserved
