-- ===== src/BorrowCheck/Worklist.antt =====
-- check.rs: the blocks, the edges between them and the worklist.
pub mod Skips
use nitrate.Prelude.{
  ℕ, zero, suc, ◌+◌, false, List, [], ◌∷◌, ◌++◌, Option, none, some, length, get_or, set, replicate,
  map, if◌then◌else◌, leb,
}
use nitrate.Mir.Place.{Place, LocalId, local, place_has_eq}
use nitrate.Mir.Body.{Operand, Statement, Terminator, MirModule}
use nitrate.BorrowCheck.Function.{FunctionData, block_at, block_idx}
use nitrate.BorrowCheck.BitSet.{BitSet, with_capacity}
use nitrate.BorrowCheck.Flow.{LivenessInfo, compute_liveness}
use nitrate.BorrowCheck.Error.{BorrowError}
use nitrate.BorrowCheck.State.{
  State, default_state, Checker, push_worklist, apply_kills, remove_under,
}
use nitrate.BorrowCheck.Merge.{merge_state}
use nitrate.BorrowCheck.Check.{Point, process_statement, process_terminator, carry_borrows}

-- The edges out of a block, with the operands passed along each.
pub record Edge : Type 0 where
  pub succ : ℕ
  pub args : List Operand

module _ (f : FunctionData) where
  edge_to : ℕ → List Operand → Edge
  edge_to target args = record { succ = block_idx f target; args = args }

  unfoldable pub successor_edges : Terminator → List Edge
  unfolding edge_to
  successor_edges (Terminator.goto t args) = edge_to t args ∷ []
  successor_edges (Terminator.if_ _ t t_args e e_args) = edge_to t t_args ∷ edge_to e e_args ∷ []
  successor_edges (Terminator.switch_int _ arms o o_args) =
      map (λ a. edge_to a.target a.args) arms ++ edge_to o o_args ∷ []
  successor_edges (Terminator.call _ _ _ (some t) args) = edge_to t args ∷ []
  successor_edges (Terminator.call _ _ _ none _) = []
  successor_edges (Terminator.return_ _) = []
  successor_edges Terminator.unreachable = []

-- The argument locals of a block are initialized on every edge to it.
unfoldable pub bind_args : List LocalId → State → State
bind_args [] s = s
bind_args (id ∷ ids) s = bind_args ids (record s {
  moved = remove_under (local id) s.moved;
  uninit = remove_under (local id) s.uninit;
})

module _ (f : FunctionData) (m : MirModule) (liveness : LivenessInfo) where
  -- The zip of the operands with the argument locals of the target.
  unfoldable pub carry_args : List Operand → List LocalId → State → State
  carry_args [] ids s = s
  carry_args (op ∷ ops) [] s = s
  carry_args (op ∷ ops) (id ∷ ids) s = carry_args ops ids (carry_borrows f m op (local id) s)

  unfoldable pub carry_edges : List Edge → State → State
  carry_edges [] s = s
  carry_edges (e ∷ es) s = carry_edges es (carry_args e.args (block_at f e.succ).arg_local_ids s)

  unfoldable pub propagate_edge_holders : ℕ → State → State
  propagate_edge_holders b s = carry_edges (successor_edges f (block_at f b).terminator) s

  -- The statements from position `i` on, each followed by the kills of what is dead behind it.
  unfoldable pub process_statements : List Statement → ℕ → List BitSet → ℕ → Checker → State → Point
  process_statements [] b live_before i c s = (c, s)
  process_statements (stmt ∷ stmts) b live_before i c s =
      let (c', s') = process_statement f m liveness stmt (record { block = b; stmt = i }) c s in
      let live_after = get_or live_before (i + 1) (with_capacity 0) in
      process_statements stmts b live_before (i + 1) c' (apply_kills f s' live_after)

  unfoldable pub process_block : ℕ → Checker → State → Point
  process_block b c s =
      let block = block_at f b in
      let (c₁, s₁) =
        process_statements block.statements b (get_or liveness.live_before b []) 0 c s in
      let (c₂, s₂) =
        process_terminator f m liveness block.terminator
          (record { block = b; stmt = length block.statements }) c₁ s₁ in
      let s₃ = propagate_edge_holders b s₂ in
      (c₂, apply_kills f s₃ (get_or liveness.live_out b (with_capacity 0)))

  unfoldable pub flow_edge : State → Edge → Checker → Checker
  flow_edge exit e c = elim (merge_state (get_or c.entry_states e.succ default_state) exit) [
    | some merged ↦ push_worklist e.succ (record c {
      entry_states = set c.entry_states e.succ (bind_args (block_at f e.succ).arg_local_ids merged);
    })
    | none ↦ c
  ]

  unfoldable pub flow_edges : State → List Edge → Checker → Checker
  flow_edges exit [] c = c
  flow_edges exit (e ∷ es) c = flow_edges exit es (flow_edge exit e c)

  -- One turn of the worklist loop, on block `b`.
  unfoldable pub step_block : ℕ → Checker → Checker
  step_block b c =
      let (c', exit) = process_block b c (get_or c.entry_states b default_state) in
      flow_edges exit (successor_edges f (block_at f b).terminator) c'

  unfoldable pub pop_block : ℕ → List ℕ → Checker → Checker
  pop_block b rest c = record c { worklist = rest; in_worklist = set c.in_worklist b false }

  -- The worklist loop, for so many turns at most; `none` where they are not enough.
  unfoldable pub run_worklist : ℕ → Checker → Option Checker
  run_worklist zero c = none
  run_worklist (suc fuel) c = elim c.worklist [
    | [] ↦ some c
    | b ∷ rest ↦ run_worklist fuel (step_block b (pop_block b rest c))
  ]

-- Every local but the parameters, the first `arg_count`, is uninitialized on entry.
unfoldable pub uninit_from : ℕ → ℕ → List LocalId → List Place
uninit_from i arg_count [] = []
uninit_from i arg_count (id ∷ ids) =
    let rest = uninit_from (i + 1) arg_count ids in
    if leb arg_count i then local id ∷ rest else rest

unfoldable pub entry_state : FunctionData → State
unfolding uninit_from
entry_state f = record { borrows = []; moved = []; uninit = uninit_from 0 f.arg_count f.local_ids }

unfoldable pub initial_checker : FunctionData → Checker
initial_checker f =
    let nblocks = length f.blocks in
    push_worklist f.entry (record {
      entry_states = set (replicate nblocks default_state) f.entry (entry_state f);
      worklist = [];
      in_worklist = replicate nblocks false;
      next_borrow_idx = 0;
      errors = [];
      reported = [];
    })

-- `collect_errors` of lib.rs on a function with a body: liveness, then the worklist, each with its
-- fuel.
unfoldable pub collect_errors : ℕ → ℕ → FunctionData → MirModule → Option (List BorrowError)
collect_errors rounds turns f m = elim (compute_liveness rounds f) [
  | none ↦ none
  | some liveness ↦ elim (run_worklist f m liveness turns (initial_checker f)) [
    | none ↦ none
    | some c ↦ some c.errors
  ]
]
