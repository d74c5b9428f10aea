-- ===== src/BorrowCheck/Access.antt =====
-- The access helpers of check.rs: reads and moves, writes, borrows, two-phase activation and
-- returned borrows, each checked against the state at its point.
pub mod Checked
pub mod Conflicts
pub mod Moves
pub mod Escape
pub mod Activation
use nitrate.Prelude.{
  ℕ, ◌+◌, Bool, true, false, not, ◌&&◌, String, List, [], ◌∷◌, ◌++◌, Option, none, some, get_or,
  retain, any, find?, map, if◌then◌else◌, ◌==◌,
}
use nitrate.Prelude.Classes.{contains, insert}
use nitrate.Mir.Place.{Place, local, place_has_eq}
use nitrate.Mir.Body.{BorrowKind, Operand, copy, move, constant, MirModule}
use nitrate.BorrowCheck.Function.{FunctionData, idx_of}
use nitrate.BorrowCheck.Places.{
  overlaps, init_chain, is_escapable, is_place_mutable, place_to_string,
}
use nitrate.BorrowCheck.BitSet.{contains as holds_local}
use nitrate.BorrowCheck.Flow.{LivenessInfo}
use nitrate.BorrowCheck.Error.{
  BorrowError, mutable_borrow_of_immutable, borrow_of_local_escape, use_after_move, use_before_init,
  borrow_of_moved, borrow_of_uninit, assign_to_moved, mutable_borrow_conflict,
  shared_borrow_conflict, write_while_borrowed, read_while_mutably_borrowed, move_while_borrowed,
  two_phase_activation_conflict, ◌<>◌,
}
use nitrate.BorrowCheck.State.{
  State, Checker, Location, BorrowRecord, kind_str, is_mutable, report, report_each, find_moved,
  find_uninit,
}

-- A mutable borrow that excludes other accesses: activated, if it was reserved first.
unfoldable pub is_exclusive : BorrowRecord → Bool
is_exclusive br = is_mutable br.kind && br.activated

-- What a read, or a move, of a place reports of one borrow.
unfoldable pub read_conflict : Place → Bool → BorrowRecord → Option BorrowError
unfolding is_exclusive
read_conflict p move_out br =
    if not (overlaps p br.source)
    then none
    else if move_out
    then some (
        move_while_borrowed (place_to_string p) (kind_str br.kind)
          "moving deinitializes the borrowed memory")
    else if is_exclusive br
    then some (
        read_while_mutably_borrowed (place_to_string p) "mutable"
          "reading while a mutable borrow is active")
    else none

-- The first half of a read and of a borrow: the place must not be moved from or uninitialized.
unfoldable pub check_init :
    (String → String → BorrowError)
    → (String → String → BorrowError)
    → String
    → String
    → Place
    → State
    → Location
    → Checker
    → Checker
check_init moved_error uninit_error moved_suffix uninit_suffix p s loc c = elim (find_moved p s) [
  | some m ↦
      report (moved_error (place_to_string p) ("`" <> place_to_string m <> moved_suffix)) loc c
  | none ↦ elim (find_uninit p s) [
    | some u ↦
        report (uninit_error (place_to_string p) ("`" <> place_to_string u <> uninit_suffix)) loc c
    | none ↦ c
  ]
]

-- A move leaves the place moved from and uninitialized.
unfoldable pub deinitialize : Place → State → State
deinitialize p s = record s { moved = insert s.moved p; uninit = insert s.uninit p }

unfoldable pub read_place : Place → Bool → Location → Checker → State → Checker × State
read_place p move_out loc c s =
    let c₁ =
      check_init use_after_move use_before_init "` was moved from earlier on this path"
        "` is not initialized on this path" p s loc c in
    let c₂ = report_each (read_conflict p move_out) loc s.borrows c₁ in
    (c₂, if move_out then deinitialize p s else s)

unfoldable pub write_conflict : Place → BorrowRecord → Option BorrowError
write_conflict p br =
    if overlaps p br.source
    then some (
        write_while_borrowed (place_to_string p) (kind_str br.kind)
          "assigning while a borrow of the same memory is active")
    else none

skip_one : List Place → List Place
skip_one [] = []
skip_one (p ∷ ps) = ps

-- The nearest moved ancestor, other than the place itself.
unfoldable pub moved_parent : Place → State → Option Place
unfolding skip_one
moved_parent p s = find? (λ anc. contains s.moved anc) (skip_one (init_chain p))

unfoldable pub write_place : Place → Location → Checker → State → Checker
write_place p loc c s =
    let c₁ = report_each (write_conflict p) loc s.borrows c in
    elim (moved_parent p s) [
      | some anc ↦
          report
            (assign_to_moved (place_to_string p)
              ("parent `" <> place_to_string anc <> "` was moved from"))
            loc c₁
      | none ↦ c₁
    ]

unfoldable pub borrow_conflict : BorrowKind → Place → BorrowRecord → Option BorrowError
unfolding is_exclusive
borrow_conflict kind p br =
    if not (overlaps p br.source)
    then none
    else if is_mutable kind
    then some (
        mutable_borrow_conflict (place_to_string p) (kind_str br.kind)
          "a mutable borrow cannot coexist with any other borrow")
    else if is_exclusive br
    then some (
        shared_borrow_conflict (place_to_string p) "mutable"
          "a shared borrow cannot coexist with an active mutable borrow")
    else none

module _ (f : FunctionData) (m : MirModule) (liveness : LivenessInfo) where
  unfoldable pub is_two_phase : Place → Bool
  is_two_phase (local id) =
      get_or liveness.use_counts (idx_of f id) 0 == 1
      && holds_local liveness.call_arg_uses (idx_of f id)
  is_two_phase _ = false

  unfoldable pub check_mutability : BorrowKind → Place → Location → Checker → Checker
  check_mutability kind p loc c =
      if is_mutable kind && not (is_place_mutable f m p)
      then report
          (mutable_borrow_of_immutable (place_to_string p) "the target is not declared mutable") loc
          c
      else c

  unfoldable pub new_record : BorrowKind → Place → Place → Checker → BorrowRecord
  new_record kind p dest c =
      let two_phase = is_mutable kind && is_two_phase dest in
      record {
        idx = c.next_borrow_idx;
        kind = kind;
        source = p;
        holders = dest ∷ [];
        two_phase = two_phase;
        activated = not two_phase;
      }

  unfoldable pub borrow_place :
      BorrowKind → Place → Place → Location → Checker → State → Checker × State
  borrow_place kind p dest loc c s =
      let c₁ =
        check_init borrow_of_moved borrow_of_uninit "` was moved from earlier"
          "` is not initialized" p s loc c in
      let c₂ = check_mutability kind p loc c₁ in
      let c₃ = report_each (borrow_conflict kind p) loc s.borrows c₂ in
      (
        record c₃ { next_borrow_idx = c₃.next_borrow_idx + 1 },
        record s { borrows = s.borrows ++ new_record kind p dest c₃ ∷ [] },
      )

-- `filter_map` over the call's arguments: the places among them.
unfoldable pub arg_places : List Operand → List Place
arg_places [] = []
arg_places (copy p ∷ ops) = p ∷ arg_places ops
arg_places (move p ∷ ops) = p ∷ arg_places ops
arg_places (constant _ ∷ ops) = arg_places ops

unfoldable pub is_activated_by : List Place → BorrowRecord → Bool
is_activated_by args br = br.two_phase && not br.activated && any (λ p. contains br.holders p) args

unfoldable pub activate : ℕ → List BorrowRecord → List BorrowRecord
activate idx [] = []
activate idx (br ∷ brs) =
    let rest = br ∷ activate idx brs in
    if br.idx == idx then record br { activated = true } ∷ brs else rest

unfoldable pub activation_conflict : ℕ → Place → BorrowRecord → Option BorrowError
activation_conflict idx source other =
    if not (other.idx == idx) && overlaps source other.source
    then some (
        two_phase_activation_conflict (place_to_string source) (kind_str other.kind)
          "the two-phase mutable borrow was activated while another borrow of the same memory was still active")
    else none

-- One round of the loop over the borrows to activate.
unfoldable pub activate_one : Location → ℕ → Checker → State → Checker × State
activate_one loc idx c s =
    let s' : State = record s { borrows = activate idx s.borrows } in
    (
      elim (find? (λ br. br.idx == idx) s'.borrows) [
        | some br ↦ report_each (activation_conflict idx br.source) loc s'.borrows c
        | none ↦ c
      ],
      s',
    )

unfoldable pub activate_all : Location → List ℕ → Checker → State → Checker × State
activate_all loc [] c s = (c, s)
activate_all loc (idx ∷ idxs) c s =
    let (c', s') = activate_one loc idx c s in activate_all loc idxs c' s'

unfoldable pub activate_two_phase_borrows :
    List Operand → Location → Checker → State → Checker × State
activate_two_phase_borrows args loc c s =
    activate_all loc (map (λ br. br.idx) (retain (is_activated_by (arg_places args)) s.borrows)) c s

unfoldable pub escape_conflict : Place → BorrowRecord → Option BorrowError
escape_conflict p br =
    if contains br.holders p && not (is_escapable br.source)
    then some (
        borrow_of_local_escape (place_to_string br.source)
          "the referenced local dies when the function returns")
    else none

unfoldable pub check_returned_borrow : Place → Location → Checker → State → Checker
check_returned_borrow p loc c s = report_each (escape_conflict p) loc s.borrows c
