-- ===== src/BorrowCheck/Invariant.antt =====
-- What holds throughout a block: a relation between the checker and the state that the primitive
-- steps of check.rs keep is kept by every operand, rvalue, statement, terminator and block.
pub mod Block
pub mod Reports
use nitrate.Prelude.{
  ℕ, ◌+◌, Bool, true, false, List, [], ◌∷◌, ◌++◌, not, ◌&&◌, Option, none, some, length, get_or,
  map, retain, find?, if◌then◌else◌, ◌≡◌, inl, inr, String, refl, arith, ◌==◌, Option-cases,
  Bool-cases, and_true,
}
use nitrate.Prelude.Classes.{insert}
use nitrate.Mir.Place.{Place, LocalId, local, place_has_eq}
use nitrate.Mir.Body.{
  Operand, copy, move, constant, BorrowKind, Rvalue, Statement, Terminator, SwitchArm, MirModule,
}
use nitrate.BorrowCheck.Function.{FunctionData, block_at}
use nitrate.BorrowCheck.Places.{is_reference_typed, is_place_mutable}
use nitrate.BorrowCheck.BitSet.{BitSet, with_capacity}
use nitrate.BorrowCheck.Flow.{LivenessInfo}
use nitrate.BorrowCheck.Error.{BorrowError}
use nitrate.BorrowCheck.State.{
  State, Checker, Location, BorrowRecord, is_mutable, report, report_each, find_moved, find_uninit,
  apply_kills, kill_holders_overwritten, kill_borrows_at_local, mark_initialized, propagate_holders,
}
use nitrate.BorrowCheck.Access.{
  read_place, write_place, borrow_place, activate_two_phase_borrows, check_returned_borrow,
  check_init, check_mutability, deinitialize, new_record, moved_parent, activate, activate_one,
  activate_all, arg_places, is_activated_by,
}
use nitrate.BorrowCheck.Check.{
  process_operand, process_operands, carry_borrows, process_rvalue, process_statement,
  process_terminator, process_arms, check_return, write_destination,
}
use nitrate.BorrowCheck.Worklist.{
  Edge, carry_args, carry_edges, propagate_edge_holders, process_statements, process_block,
  successor_edges,
}

abbrev pub Relation : Type 1
Relation = Checker → State → Type 0

-- The state after fresh or dead storage of a local.
abbrev pub reset_local : LocalId → State → State
reset_local id s = kill_borrows_at_local id (record s { uninit = insert s.uninit (local id) })

-- The primitive steps.
pub record Keeps (f : FunctionData) (P : Relation) : Type 0 where
  pub on_report :
      (e : BorrowError) (loc : Location) (c : Checker) (s : State) → P c s → P (report e loc c) s
  pub on_borrow :
      (kind : BorrowKind) (p dest : Place) (two_phase : Bool)
      → (two_phase ≡ true → is_mutable kind ≡ true)
      → (c : Checker) (s : State) → P c s
      → P
          (record c { next_borrow_idx = c.next_borrow_idx + 1 })
          (record s {
            borrows =
                s.borrows
                ++ record {
                  idx = c.next_borrow_idx;
                  kind = kind;
                  source = p;
                  holders = dest ∷ [];
                  two_phase = two_phase;
                  activated = not two_phase;
                }
                  ∷ [];
          })
  pub on_move : (p : Place) (c : Checker) (s : State) → P c s → P c (deinitialize p s)
  pub on_init : (p : Place) (c : Checker) (s : State) → P c s → P c (mark_initialized p s)
  pub on_overwrite :
      (p : Place) (c : Checker) (s : State) → P c s → P c (kill_holders_overwritten p s)
  pub on_storage : (id : LocalId) (c : Checker) (s : State) → P c s → P c (reset_local id s)
  pub on_propagate : (p q : Place) (c : Checker) (s : State) → P c s → P c (propagate_holders p q s)
  pub on_activate :
      (idx : ℕ) (c : Checker) (s : State)
      → P c s
      → P c (record s { borrows = activate idx s.borrows })
  pub on_kill : (live : BitSet) (c : Checker) (s : State) → P c s → P c (apply_kills f s live)

module _ {f : FunctionData} {P : Relation} (k : Keeps f P) where
  report_each-keeps :
      (conflict : BorrowRecord → Option BorrowError) (loc : Location) (brs : List BorrowRecord)
      (c : Checker) (s : State)
      → P c s
      → P (report_each conflict loc brs c) s
  unfolding report_each
  report_each-keeps conflict loc [] c s h = h
  report_each-keeps conflict loc (br ∷ brs) c s h = elim (Option-cases (conflict br)) [
    | inl quiet ↦ rw quiet (report_each-keeps conflict loc brs c s h)
    | inr (e, found) ↦
        rw found (report_each-keeps conflict loc brs (report e loc c) s (k.on_report e loc c s h))
  ]

  check_init-keeps :
      (me ue : String → String → BorrowError) (ms us : String) (p : Place) (loc : Location)
      (c : Checker) (s : State)
      → P c s
      → P (check_init me ue ms us p s loc c) s
  unfolding check_init
  check_init-keeps me ue ms us p loc c s h = elim (Option-cases (find_moved p s)) [
    | inl live ↦ elim (Option-cases (find_uninit p s)) [
      | inl ready ↦ rw (live, ready, check_init) h
      | inr (u, found) ↦ rw (live, found, check_init) (k.on_report _ loc c s h)
    ]
    | inr (m, found) ↦ rw (found, check_init) (k.on_report _ loc c s h)
  ]

  read_place-keeps :
      (p : Place) (move_out : Bool) (loc : Location) (c : Checker) (s : State)
      → P c s
      → P (read_place p move_out loc c s).0 (read_place p move_out loc c s).1
  unfolding read_place
  read_place-keeps p true loc c s h =
      k.on_move p _ s (report_each-keeps _ loc s.borrows _ s (check_init-keeps _ _ _ _ p loc c s h))
  read_place-keeps p false loc c s h =
      report_each-keeps _ loc s.borrows _ s (check_init-keeps _ _ _ _ p loc c s h)

  write_place-keeps :
      (p : Place) (loc : Location) (c : Checker) (s : State) → P c s → P (write_place p loc c s) s
  unfolding write_place
  write_place-keeps p loc c s h = elim (Option-cases (moved_parent p s)) [
    | inl live ↦ rw (live, write_place) (report_each-keeps _ loc s.borrows c s h)
    | inr (anc, found) ↦
        rw (found, write_place) (k.on_report _ loc _ s (report_each-keeps _ loc s.borrows c s h))
  ]

  check_mutability-keeps :
      (m : MirModule) (l : LivenessInfo) (kind : BorrowKind) (p : Place) (loc : Location)
      (c : Checker) (s : State)
      → P c s
      → P (check_mutability f m l kind p loc c) s
  unfolding check_mutability
  check_mutability-keeps m l kind p loc c s h =
      elim (Bool-cases (is_mutable kind && not (is_place_mutable f m p))) [
        | inl bad ↦ rw bad (k.on_report _ loc c s h)
        | inr good ↦ rw good h
      ]

  borrow_place-keeps :
      (m : MirModule) (l : LivenessInfo) (kind : BorrowKind) (p dest : Place) (loc : Location)
      (c : Checker) (s : State)
      → P c s
      → P (borrow_place f m l kind p dest loc c s).0 (borrow_place f m l kind p dest loc c s).1
  unfolding borrow_place new_record
  borrow_place-keeps m l kind p dest loc c s h =
      k.on_borrow kind p dest _ (λ e. (and_true _ _ e).0) _ s
        (report_each-keeps _ loc s.borrows _ s
          (check_mutability-keeps m l kind p loc _ s (check_init-keeps _ _ _ _ p loc c s h)))

  activate_one-keeps :
      (loc : Location) (idx : ℕ) (c : Checker) (s : State)
      → P c s
      → P (activate_one loc idx c s).0 (activate_one loc idx c s).1
  unfolding activate_one
  activate_one-keeps loc idx c s h =
      elim (Option-cases (find? (λ br. br.idx == idx) (activate idx s.borrows))) [
        | inl absent ↦ rw (absent, activate_one) (k.on_activate idx c s h)
        | inr (br, found) ↦
            rw (found, activate_one)
              (report_each-keeps _ loc (activate idx s.borrows) c _ (k.on_activate idx c s h))
      ]

  activate_all-keeps :
      (loc : Location) (idxs : List ℕ) (c : Checker) (s : State)
      → P c s
      → P (activate_all loc idxs c s).0 (activate_all loc idxs c s).1
  unfolding activate_all
  activate_all-keeps loc [] c s h = h
  activate_all-keeps loc (idx ∷ idxs) c s h =
      activate_all-keeps loc idxs _ _ (activate_one-keeps loc idx c s h)

  process_operand-keeps :
      (op : Operand) (loc : Location) (c : Checker) (s : State)
      → P c s
      → P (process_operand op loc c s).0 (process_operand op loc c s).1
  unfolding process_operand
  process_operand-keeps (constant _) loc c s h = h
  process_operand-keeps (copy p) loc c s h = read_place-keeps p false loc c s h
  process_operand-keeps (move p) loc c s h = read_place-keeps p true loc c s h

  process_operands-keeps :
      (ops : List Operand) (loc : Location) (c : Checker) (s : State)
      → P c s
      → P (process_operands ops loc c s).0 (process_operands ops loc c s).1
  unfolding process_operands
  process_operands-keeps [] loc c s h = h
  process_operands-keeps (op ∷ ops) loc c s h =
      process_operands-keeps ops loc _ _ (process_operand-keeps op loc c s h)

  carry_borrows-keeps :
      (m : MirModule) (op : Operand) (dest : Place) (c : Checker) (s : State)
      → P c s
      → P c (carry_borrows f m op dest s)
  unfolding carry_borrows
  carry_borrows-keeps m (constant _) dest c s h = h
  carry_borrows-keeps m (copy p) dest c s h = elim (Bool-cases (is_reference_typed f m p)) [
    | inl yes' ↦ rw yes' (k.on_propagate p dest c s h)
    | inr no' ↦ rw no' h
  ]
  carry_borrows-keeps m (move p) dest c s h = elim (Bool-cases (is_reference_typed f m p)) [
    | inl yes' ↦ rw yes' (k.on_propagate p dest c s h)
    | inr no' ↦ rw no' h
  ]
