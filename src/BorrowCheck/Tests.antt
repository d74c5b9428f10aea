-- ===== src/BorrowCheck/Tests.antt =====
-- The theorems on small functions and states, and runs of the checker.
use nitrate.Prelude.{true, false, ◌||◌, ◌≡◌, ◌≢◌, ◌↔◌, List, some, refl}
use mathlib.Core.Option
use nitrate.Prelude.Classes.{contains, string_eq}
use nitrate.Mir.Place.{local, field, place_has_eq, place_eq}
use nitrate.Mir.Body.{successors, targets}
use nitrate.BorrowCheck.Places.{is_prefix, overlaps, root_place}
use nitrate.BorrowCheck.Places.Order.{deref_depth, overlaps_region}
use nitrate.BorrowCheck.BitSet.{
  BitSet, with_capacity, insert, union_with, subtract, bit_set_eq, words_eq, resize, zip_and_not,
  zip_or,
}
use nitrate.BorrowCheck.Flow.{
  LivenessInfo, transfer, compute_liveness, rounds, round, visit_blocks, visit_block,
  union_successors, initial_flow, sets_eq, backward, function_usedefs, block_usedefs, fresh,
  initial_collected,
}
use nitrate.BorrowCheck.Liveness.{
  add_def, add_use, collect_operand_usedef, collect_operands, collect_place_locals,
  collect_rvalue_usedef, collect_stmt_usedef, collect_term_usedef, mark_place_call_arg,
}
use nitrate.Prelude.Bits.{complement}
use nitrate.BorrowCheck.Function.{block_at, successor_indices, block_idx, idx_of, position}
use nitrate.BorrowCheck.Flow.Equations.{IsLiveness}
use nitrate.BorrowCheck.Flow.Total.{enough_rounds, compute_liveness_total}
use nitrate.BorrowCheck.State.{apply_kills, kill_holders_overwritten}
use nitrate.BorrowCheck.State.Holders.{held, IsLiveRoot, kill-held}
use nitrate.BorrowCheck.Merge.Join.{merged_entry, merge_state_join}
use nitrate.BorrowCheck.Examples.{no_liveness, skipped, returns_x, borrowed, moved_from}

overlap : overlaps (local 0) (field (local 0) "a") ≡ true
unfolding overlaps is_prefix place_eq
overlap = refl

overlaps_region_example :
    (root_place (local 0) ≡ root_place (field (local 0) "a"))
    × (deref_depth (local 0) ≡ deref_depth (field (local 0) "a"))
overlaps_region_example = overlaps_region (local 0) (field (local 0) "a") overlap

abbrev two : BitSet
two = insert (with_capacity 70) 65

merge_state_join_example :
    (contains (merged_entry borrowed moved_from).moved (local 3)
      ≡ (contains borrowed.moved (local 3) || contains moved_from.moved (local 3)))
    × (contains (merged_entry borrowed moved_from).uninit (local 3)
        ≡ (contains borrowed.uninit (local 3) || contains moved_from.uninit (local 3)))
    × (held 0 (local 3) (merged_entry borrowed moved_from).borrows
        ≡ (held 0 (local 3) borrowed.borrows || held 0 (local 3) moved_from.borrows))
merge_state_join_example = merge_state_join borrowed moved_from (local 3) 0

-- The liveness that four rounds end with on a function of one block.
abbrev live : LivenessInfo
live = Option.get_or (compute_liveness 4 returns_x) no_liveness

four_rounds : compute_liveness 4 returns_x ≡ some live
unfolding compute_liveness rounds round visit_blocks visit_block bit_set_eq words_eq
    union_successors successor_indices successors block_at with_capacity initial_flow sets_eq
    backward function_usedefs block_usedefs transfer insert resize subtract union_with zip_and_not
    zip_or fresh initial_collected block_idx idx_of position add_def add_use collect_operand_usedef
    collect_operands collect_place_locals collect_rvalue_usedef collect_stmt_usedef
    collect_term_usedef mark_place_call_arg root_place targets complement
four_rounds = refl

kill-held_example :
    ((held 0 (local 1) (apply_kills skipped borrowed two).borrows ≡ true)
      ↔ ((held 0 (local 1) borrowed.borrows ≡ true) × IsLiveRoot skipped two (local 1)))
    × ((held 0 (local 1) (kill_holders_overwritten (local 1) borrowed).borrows ≡ true) ↔ (
        (held 0 (local 1) borrowed.borrows ≡ true)
        × (local 1 ≢ local 1)
        × (is_prefix (local 1) (local 1) ≡ false)))
kill-held_example = kill-held skipped borrowed two (local 1) (local 1) 0

compute_liveness_total_example :
    (l : LivenessInfo) × (compute_liveness (enough_rounds returns_x) returns_x ≡ some l)
    × ((live_in : List BitSet) × IsLiveness returns_x l live_in)
compute_liveness_total_example = compute_liveness_total returns_x
