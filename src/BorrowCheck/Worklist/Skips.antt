-- ===== src/BorrowCheck/Worklist/Skips.antt =====
-- Blocks whose entry state no edge changes.
use nitrate.Prelude.{
  ℕ, zero, suc, ◌+◌, ◌<◌, ◌≤◌, false, List, [], ◌∷◌, some, get_or, length, replicate, leb, ◌≡◌,
  refl, ap, ◌∙◌, arith, get_or-set_self, length-replicate,
}
use nitrate.Mir.Place.{LocalId}
use nitrate.Mir.Body.{MirModule, Terminator, BasicBlockId}
use nitrate.BorrowCheck.Function.{FunctionData, block_at}
use nitrate.BorrowCheck.Flow.{LivenessInfo}
use nitrate.BorrowCheck.State.{default_state, Checker, apply_kills, retain_holders, push_worklist}
use nitrate.BorrowCheck.Worklist.{
  initial_checker, run_worklist, entry_state, uninit_from, process_block, process_statements,
  propagate_edge_holders, carry_edges, carry_args, successor_edges, flow_edge, flow_edges,
  step_block, pop_block,
}
use nitrate.BorrowCheck.Merge.{merge_state, merge_borrows, merge_set}
use nitrate.BorrowCheck.Check.{process_terminator, process_operands}

uninit_from-params : (i n : ℕ) (ids : List LocalId) → i + length ids ≤ n → uninit_from i n ids ≡ []
unfolding uninit_from
uninit_from-params i n [] h = refl
uninit_from-params i n (id ∷ ids) h =
    let behind : leb n i ≡ false = ground arith in
    rw behind (uninit_from-params (i + 1) n ids (omega arith))

module _ (f : FunctionData) (m : MirModule) (l : LivenessInfo) where
  -- A block with no statement and a jump leaves a checker and an empty state as they are.
  process_block-jump :
      (b : ℕ) (target : BasicBlockId) (c : Checker)
      → (block_at f b).statements ≡ []
      → (block_at f b).terminator ≡ Terminator.goto target []
      → process_block f m l b c default_state ≡ (c, default_state)
  unfolding process_block process_statements process_terminator propagate_edge_holders
      process_operands carry_edges carry_args successor_edges apply_kills retain_holders
  process_block-jump b target c empty jump = rw (empty, jump) refl

  -- The edge of a jump from an empty state changes no entry state that is there.
  flow_edges-jump :
      (target : BasicBlockId) (c : Checker)
      → flow_edges f m l default_state (successor_edges f (Terminator.goto target [])) c ≡ c
  unfolding flow_edges flow_edge successor_edges merge_state merge_borrows merge_set
  flow_edges-jump target c = refl

  step_block-jump :
      (b : ℕ) (target : BasicBlockId) (c : Checker)
      → (block_at f b).statements ≡ []
      → (block_at f b).terminator ≡ Terminator.goto target []
      → get_or c.entry_states b default_state ≡ default_state
      → step_block f m l b c ≡ c
  unfolding step_block
  step_block-jump b target c empty jump fresh =
      rw (fresh, step_block)
        (rw (process_block-jump b target c empty jump) (rw jump (flow_edges-jump target c)))

  run_worklist-jump :
      (b : ℕ) (target : BasicBlockId) (fuel : ℕ) (c : Checker)
      → (block_at f b).statements ≡ []
      → (block_at f b).terminator ≡ Terminator.goto target []
      → c.worklist ≡ b ∷ []
      → get_or c.entry_states b default_state ≡ default_state
      → run_worklist f m l (suc (suc fuel)) c ≡ some (pop_block f m l b [] c)
  unfolding run_worklist pop_block
  run_worklist-jump b target fuel c empty jump list fresh =
      let stays = step_block-jump b target (pop_block f m l b [] c) empty jump fresh in
      rw (list, run_worklist) (rw stays (ap some stays))

get_or-replicate : (n i : ℕ) → get_or (replicate n false) i false ≡ false
get_or-replicate zero i = refl
get_or-replicate (suc n) zero = refl
get_or-replicate (suc n) (suc i) = get_or-replicate n i

entry_state-params :
    (f : FunctionData) → length f.local_ids ≤ f.arg_count → entry_state f ≡ default_state
unfolding entry_state
entry_state-params f params = rw (uninit_from-params 0 f.arg_count f.local_ids (omega arith)) refl

initial_checker-entry :
    (f : FunctionData)
    → f.entry < length f.blocks
    → length f.local_ids ≤ f.arg_count
    → ((initial_checker f).worklist ≡ f.entry ∷ [])
      × (get_or (initial_checker f).entry_states f.entry default_state ≡ default_state)
      × ((initial_checker f).errors ≡ [])
unfolding initial_checker push_worklist
initial_checker-entry f inside params = rw (get_or-replicate (length f.blocks) f.entry) (
  refl,
  get_or-set_self (replicate (length f.blocks) default_state) f.entry (entry_state f) default_state
        (rw (length-replicate (length f.blocks) default_state) inside)
      ∙ entry_state-params f params,
  refl,
)

-- Nothing behind a first block that only jumps, with every local a parameter, is ever visited: the
-- loop ends after one turn, with no error, whatever the statements of the other blocks are.
pub entry_goto-skips :
    (f : FunctionData) (m : MirModule) (l : LivenessInfo) (target : BasicBlockId) (fuel : ℕ)
    → f.entry < length f.blocks
    → length f.local_ids ≤ f.arg_count
    → (block_at f f.entry).statements ≡ []
    → (block_at f f.entry).terminator ≡ Terminator.goto target []
    → (c : Checker) × (run_worklist f m l (suc (suc fuel)) (initial_checker f) ≡ some c)
      × (c.errors ≡ [])
unfolding pop_block
entry_goto-skips f m l target fuel inside params empty jump =
    let (list, fresh, clean) = initial_checker-entry f inside params in
    (
      pop_block f m l f.entry [] (initial_checker f),
      run_worklist-jump f m l f.entry target fuel (initial_checker f) empty jump list fresh,
      clean,
    )
