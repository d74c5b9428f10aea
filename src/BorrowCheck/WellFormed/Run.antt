-- ===== src/BorrowCheck/WellFormed/Run.antt =====
-- The worklist keeps every entry state well formed.
use nitrate.Prelude.{
  ℕ, zero, suc, ◌≤◌, false, List, [], ◌∷◌, set, length, get_or, replicate, ◌≡◌, inl, inr, refl,
  arith, Bool-cases, Option-cases,
}
use nitrate.Mir.Place.{LocalId, place_has_eq}
use nitrate.Mir.Body.{MirModule}
use nitrate.BorrowCheck.Function.{FunctionData, block_at}
use nitrate.BorrowCheck.Flow.{LivenessInfo}
use nitrate.BorrowCheck.State.{State, default_state, Checker, push_worklist}
use nitrate.BorrowCheck.Merge.{merge_state}
use nitrate.BorrowCheck.Worklist.{
  Edge, bind_args, flow_edge, flow_edges, step_block, pop_block, process_block, successor_edges,
  initial_checker, entry_state,
}
use nitrate.BorrowCheck.WellFormed.{
  AreRecords, AreRecords-mono, Numbered-kept, Past-kept, Entries-kept,
}
use nitrate.BorrowCheck.Invariant.Block.{process_block-keeps}
use nitrate.BorrowCheck.WellFormed.Join.{merge_state-AreRecords}

bind_args-borrows : (ids : List LocalId) (s : State) → (bind_args ids s).borrows ≡ s.borrows
unfolding bind_args
bind_args-borrows [] s = refl
bind_args-borrows (id ∷ ids) s = bind_args-borrows ids _

-- Every entry state has well-formed borrows.
abbrev pub AllRecords : ℕ → List State → Type 0
AllRecords n [] = Unit
AllRecords n (s ∷ ss) = AreRecords n s.borrows × AllRecords n ss

abbrev pub IsChecker : Checker → Type 0
IsChecker c = AllRecords c.next_borrow_idx c.entry_states

AllRecords-mono : (n m : ℕ) (ss : List State) → n ≤ m → AllRecords n ss → AllRecords m ss
AllRecords-mono n m [] le h = tt
AllRecords-mono n m (s ∷ ss) le h =
    (AreRecords-mono n m s.borrows le h.0, AllRecords-mono n m ss le h.1)

AllRecords-set :
    (n : ℕ) (ss : List State) (i : ℕ) (s : State)
    → AreRecords n s.borrows
    → AllRecords n ss
    → AllRecords n (set ss i s)
AllRecords-set n [] i s r h = h
AllRecords-set n (t ∷ ss) zero s r h = (r, h.1)
AllRecords-set n (t ∷ ss) (suc i) s r h = (h.0, AllRecords-set n ss i s r h.1)

AllRecords-get_or :
    (n : ℕ) (ss : List State) (i : ℕ)
    → AllRecords n ss
    → AreRecords n (get_or ss i default_state).borrows
AllRecords-get_or n [] i h = tt
AllRecords-get_or n (t ∷ ss) zero h = h.0
AllRecords-get_or n (t ∷ ss) (suc i) h = AllRecords-get_or n ss i h.1

push_worklist-IsChecker : (b : ℕ) (c : Checker) → IsChecker c → IsChecker (push_worklist b c)
unfolding push_worklist
push_worklist-IsChecker b c h = elim (Bool-cases (get_or c.in_worklist b false)) [
  | inl there ↦ rw there h
  | inr new ↦ rw new h
]

push_worklist-next : (b : ℕ) (c : Checker) → (push_worklist b c).next_borrow_idx ≡ c.next_borrow_idx
unfolding push_worklist
push_worklist-next b c = elim (Bool-cases (get_or c.in_worklist b false)) [
  | inl there ↦ rw there
  | inr new ↦ rw new
]

module _ (f : FunctionData) (m : MirModule) (l : LivenessInfo) where
  flow_edge-IsChecker :
      (exit : State) (e : Edge) (c : Checker)
      → AreRecords c.next_borrow_idx exit.borrows
      → IsChecker c
      → IsChecker (flow_edge f m l exit e c)
        × ((flow_edge f m l exit e c).next_borrow_idx ≡ c.next_borrow_idx)
  unfolding flow_edge
  flow_edge-IsChecker exit e c r h =
      elim (Option-cases (merge_state (get_or c.entry_states e.succ default_state) exit)) [
        | inl same ↦ rw (same, flow_edge) (h, refl)
        | inr (s, merged) ↦
            let ids = (block_at f e.succ).arg_local_ids in
            let s-records =
              merge_state-AreRecords c.next_borrow_idx _ exit s
                (AllRecords-get_or c.next_borrow_idx c.entry_states e.succ h) r merged in
            rw (merged, flow_edge)
              (
                push_worklist-IsChecker e.succ _ (
                    AllRecords-set c.next_borrow_idx c.entry_states e.succ (bind_args ids s)
                      (rw (bind_args-borrows ids s) s-records) h),
                push_worklist-next e.succ _,
              )
      ]

  flow_edges-IsChecker :
      (exit : State) (es : List Edge) (c : Checker)
      → AreRecords c.next_borrow_idx exit.borrows
      → IsChecker c
      → IsChecker (flow_edges f m l exit es c)
  unfolding flow_edges
  flow_edges-IsChecker exit [] c r h = h
  flow_edges-IsChecker exit (e ∷ es) c r h =
      let (h', same) = flow_edge-IsChecker exit e c r h in
      flow_edges-IsChecker exit es (flow_edge f m l exit e c) (rw same r) h'

  step_block-IsChecker : (b : ℕ) (c : Checker) → IsChecker c → IsChecker (step_block f m l b c)
  unfolding step_block
  step_block-IsChecker b c h =
      let s = get_or c.entry_states b default_state in
      let out = process_block f m l b c s in
      let numbered =
        process_block-keeps (Numbered-kept f) m l b c s (AllRecords-get_or _ c.entry_states b h) in
      let grown = process_block-keeps (Past-kept c.next_borrow_idx f) m l b c s (omega arith) in
      let same = process_block-keeps (Entries-kept c.entry_states f) m l b c s refl in
      flow_edges-IsChecker out.1 (successor_edges f (block_at f b).terminator) out.0 numbered
        (rw same (AllRecords-mono _ _ c.entry_states grown h))

  -- One turn of the worklist loop.
  pub data Turn : Checker → Checker → Type 0 where
    turn :
        {c : Checker} {b : ℕ} {rest : List ℕ}
        → c.worklist ≡ b ∷ rest
        → Turn c (step_block f m l b (pop_block f m l b rest c))

  pub data Reaches (start : Checker) : Checker → Type 0 where
    here : Reaches start start
    next : {c d : Checker} → Reaches start c → Turn c d → Reaches start d

  Turn-IsChecker : {c d : Checker} → Turn c d → IsChecker c → IsChecker d
  unfolding pop_block
  Turn-IsChecker (turn {c} {b} {rest} e) h = step_block-IsChecker b (pop_block f m l b rest c) h

  Reaches-IsChecker : {c d : Checker} → Reaches c d → IsChecker c → IsChecker d
  Reaches-IsChecker here h = h
  Reaches-IsChecker (next r t) h = Turn-IsChecker t (Reaches-IsChecker r h)

AllRecords-replicate : (n k : ℕ) → AllRecords n (replicate k default_state)
AllRecords-replicate n zero = tt
AllRecords-replicate n (suc k) = (tt, AllRecords-replicate n k)

initial-IsChecker : (f : FunctionData) → IsChecker (initial_checker f)
unfolding initial_checker entry_state
initial-IsChecker f = push_worklist-IsChecker f.entry _ (
    AllRecords-set 0 (replicate (length f.blocks) default_state) f.entry (entry_state f) tt
      (AllRecords-replicate 0 (length f.blocks)))

-- However many turns the worklist loop has taken, the entry state of every block has borrows with
-- distinct numbers below the next one, each with a holder; only mutable borrows are two-phase, and
-- all others are activated.
pub reachable-IsChecker :
    (f : FunctionData) (m : MirModule) (l : LivenessInfo) (c : Checker)
    → Reaches f m l (initial_checker f) c
    → IsChecker c
reachable-IsChecker f m l c r = Reaches-IsChecker f m l r (initial-IsChecker f)
