-- ===== src/BorrowCheck/Invariant/Reports.antt =====
-- The errors and the keys they were reported under, along the worklist loop.
use nitrate.Prelude.{
  ℕ, false, String, List, [], ◌∷◌, ◌++◌, get_or, ◌≡◌, inl, inr, refl, ◌∙◌, ap, Bool-cases,
  Option-cases, or_false,
}
use nitrate.Prelude.Classes.{contains, contains-append, string_eq, beq_comm}
use nitrate.Mir.Body.{MirModule}
use nitrate.BorrowCheck.Function.{FunctionData, block_at}
use nitrate.BorrowCheck.Flow.{LivenessInfo}
use nitrate.BorrowCheck.Error.{BorrowError}
use nitrate.BorrowCheck.State.{
  State, default_state, Checker, Location, report, report_key, push_worklist,
}
use nitrate.BorrowCheck.State.Reported.{Keyed, no_keys, Keyed-append}
use nitrate.BorrowCheck.Merge.{merge_state}
use nitrate.BorrowCheck.Worklist.{
  Edge, flow_edge, flow_edges, step_block, pop_block, process_block, successor_edges,
  initial_checker,
}
use nitrate.BorrowCheck.Invariant.{Relation, Keeps}
use nitrate.BorrowCheck.Invariant.Block.{process_block-keeps}
use nitrate.BorrowCheck.WellFormed.Run.{Turn, turn, Reaches, here, next}

abbrev pub NoRepeat : List String → Type 0
NoRepeat [] = Unit
NoRepeat (k ∷ ks) = (contains ks k ≡ false) × NoRepeat ks

abbrev pub IsLog : List BorrowError → List String → Type 0
IsLog es keys = Keyed es keys × NoRepeat keys

NoRepeat-append :
    (keys : List String) (k : String)
    → contains keys k ≡ false
    → NoRepeat keys
    → NoRepeat (keys ++ k ∷ [])
NoRepeat-append [] k h n = (refl, tt)
NoRepeat-append (x ∷ keys) k h n =
    let (differs, later) = or_false (string_eq.beq x k) (contains keys k) h in
    (
      contains-append keys (k ∷ []) x ∙ rw (n.0, beq_comm k x, differs) refl,
      NoRepeat-append keys k later n.1,
    )

abbrev pub Logged : Relation
Logged c s = IsLog c.errors c.reported

report-Logged :
    (e : BorrowError) (loc : Location) (c : Checker)
    → IsLog c.errors c.reported
    → IsLog (report e loc c).errors (report e loc c).reported
unfolding report
report-Logged e loc c h = elim (Bool-cases (contains c.reported (report_key loc e))) [
  | inl known ↦ rw known h
  | inr new ↦ rw new (Keyed-append e loc h.0, NoRepeat-append c.reported _ new h.1)
]

Logged-kept : (f : FunctionData) → Keeps f Logged
Logged-kept f = record {
  on_report = λ e loc c s h. report-Logged e loc c h;
  on_borrow = λ kind p dest two_phase tp c s h. h;
  on_move = λ p c s h. h;
  on_init = λ p c s h. h;
  on_overwrite = λ p c s h. h;
  on_storage = λ id c s h. h;
  on_propagate = λ p q c s h. h;
  on_activate = λ idx c s h. h;
  on_kill = λ live c s h. h;
}

-- The errors start with those of an earlier point.
abbrev pub Continues : List BorrowError → Relation
Continues es c s = (more : List BorrowError) × (c.errors ≡ es ++ more)

append_assoc : (xs ys zs : List BorrowError) → (xs ++ ys) ++ zs ≡ xs ++ (ys ++ zs)
append_assoc [] ys zs = refl
append_assoc (x ∷ xs) ys zs = ap (λ l. x ∷ l) (append_assoc xs ys zs)

append_nil : (xs : List BorrowError) → xs ≡ xs ++ []
append_nil [] = refl
append_nil (x ∷ xs) = ap (λ l. x ∷ l) (append_nil xs)

report-Continues :
    (es : List BorrowError) (e : BorrowError) (loc : Location) (c : Checker) (s : State)
    → Continues es c s
    → Continues es (report e loc c) s
unfolding report
report-Continues es e loc c s h = elim (Bool-cases (contains c.reported (report_key loc e))) [
  | inl known ↦ rw known h
  | inr new ↦ rw new (h.0 ++ e ∷ [], ap (λ l. l ++ e ∷ []) h.1 ∙ append_assoc es h.0 (e ∷ []))
]

Continues-kept : (es : List BorrowError) (f : FunctionData) → Keeps f (Continues es)
Continues-kept es f = record {
  on_report = λ e loc c s h. report-Continues es e loc c s h;
  on_borrow = λ kind p dest two_phase tp c s h. h;
  on_move = λ p c s h. h;
  on_init = λ p c s h. h;
  on_overwrite = λ p c s h. h;
  on_storage = λ id c s h. h;
  on_propagate = λ p q c s h. h;
  on_activate = λ idx c s h. h;
  on_kill = λ live c s h. h;
}

push_worklist-log :
    (b : ℕ) (c : Checker)
    → ((push_worklist b c).errors ≡ c.errors) × ((push_worklist b c).reported ≡ c.reported)
unfolding push_worklist
push_worklist-log b c = elim (Bool-cases (get_or c.in_worklist b false)) [
  | inl there ↦ rw there (refl, refl)
  | inr new ↦ rw new (refl, refl)
]

push_worklist-IsLog :
    (b : ℕ) (c : Checker)
    → IsLog c.errors c.reported
    → IsLog (push_worklist b c).errors (push_worklist b c).reported
push_worklist-IsLog b c h = let (e, r) = push_worklist-log b c in rw (e, r) h

initial-IsLog : (f : FunctionData) → IsLog (initial_checker f).errors (initial_checker f).reported
unfolding initial_checker
initial-IsLog f = push_worklist-IsLog f.entry _ (no_keys, tt)

module _ (f : FunctionData) (m : MirModule) (l : LivenessInfo) where
  flow_edge-log :
      (exit : State) (e : Edge) (c : Checker)
      → ((flow_edge f m l exit e c).errors ≡ c.errors)
        × ((flow_edge f m l exit e c).reported ≡ c.reported)
  unfolding flow_edge
  flow_edge-log exit e c =
      elim (Option-cases (merge_state (get_or c.entry_states e.succ default_state) exit)) [
        | inl same ↦ rw (same, flow_edge) (refl, refl)
        | inr (s, merged) ↦ rw (merged, flow_edge) (push_worklist-log e.succ _)
      ]

  flow_edges-log :
      (exit : State) (es : List Edge) (c : Checker)
      → ((flow_edges f m l exit es c).errors ≡ c.errors)
        × ((flow_edges f m l exit es c).reported ≡ c.reported)
  unfolding flow_edges
  flow_edges-log exit [] c = (refl, refl)
  flow_edges-log exit (e ∷ es) c =
      let here_ = flow_edge-log exit e c in
      let later = flow_edges-log exit es (flow_edge f m l exit e c) in
      (later.0 ∙ here_.0, later.1 ∙ here_.1)

  Turn-IsLog :
      {c d : Checker}
      → Turn f m l c d
      → IsLog c.errors c.reported
      → IsLog d.errors d.reported × Continues c.errors d default_state
  unfolding step_block pop_block
  Turn-IsLog (turn {c} {b} {rest} e) h =
      let c₁ = pop_block f m l b rest c in
      let s = get_or c.entry_states b default_state in
      let out = process_block f m l b c₁ s in
      let same = flow_edges-log out.1 (successor_edges f (block_at f b).terminator) out.0 in
      let log = process_block-keeps (Logged-kept f) m l b c₁ s h in
      let more =
        process_block-keeps (Continues-kept c.errors f) m l b c₁ s ([], append_nil c.errors) in
      (rw (same.0, same.1) log, (more.0, same.0 ∙ more.1))

  Reaches-IsLog :
      {c d : Checker}
      → Reaches f m l c d
      → IsLog c.errors c.reported
      → IsLog d.errors d.reported × Continues c.errors d default_state
  Reaches-IsLog {c} here h = (h, ([], append_nil c.errors))
  Reaches-IsLog {c} {d} (next r t) h =
      let (log, before) = Reaches-IsLog r h in
      let (log', more) = Turn-IsLog t log in
      (
        log',
        (
          before.0 ++ more.0,
          more.1 ∙ ap (λ es. es ++ more.0) before.1 ∙ append_assoc c.errors before.0 more.0,
        ),
      )

-- Along the worklist loop, every error stands at the position of the key it was reported under, no
-- key is there twice, and what was reported once stays reported, in its place.
pub reachable-IsLog :
    (f : FunctionData) (m : MirModule) (l : LivenessInfo) (c d : Checker)
    → Reaches f m l (initial_checker f) c
    → Reaches f m l c d
    → IsLog d.errors d.reported × ((more : List BorrowError) × (d.errors ≡ c.errors ++ more))
reachable-IsLog f m l c d r r' = Reaches-IsLog f m l r' (Reaches-IsLog f m l r (initial-IsLog f)).0
