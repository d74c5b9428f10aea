-- ===== src/BorrowCheck/WellFormed.antt =====
-- The borrows of a state are well formed: numbered apart, below the next number, each with a holder
-- and, unless it is a reserved mutable borrow, activated.
pub mod Join
pub mod Run
use nitrate.Prelude.{
  ℕ, suc, ◌+◌, ◌<◌, ◌≤◌, Bool, true, false, not, ◌&&◌, List, [], ◌∷◌, ◌++◌, retain, if◌then◌else◌,
  ◌==◌, ==_iff, ◌≡◌, ◌≢◌, inl, inr, refl, arith, Bool-cases, and_true,
}
use nitrate.Prelude.Classes.{contains}
use nitrate.Mir.Place.{Place, place_has_eq}
use nitrate.Mir.Body.{BorrowKind}
use nitrate.BorrowCheck.Function.{FunctionData}
use nitrate.BorrowCheck.State.{
  State, Checker, BorrowRecord, is_mutable, is_held, nonempty, retain_holders, propagate_to, report,
  apply_kills, kill_holders_overwritten, kill_borrows_at_local, mark_initialized, propagate_holders,
}
use nitrate.BorrowCheck.Error.{BorrowError}
use nitrate.Prelude.Classes.{string_eq}
use nitrate.BorrowCheck.State.{report_key, Location}
use nitrate.BorrowCheck.Access.{activate, deinitialize}
use nitrate.BorrowCheck.Invariant.{Relation, Keeps, reset_local}

abbrev pub IsRecord : ℕ → BorrowRecord → Type 0
IsRecord n br =
    (br.idx < n)
    × (is_held br ≡ true)
    × (br.two_phase ≡ true → is_mutable br.kind ≡ true)
    × (br.two_phase ≡ false → br.activated ≡ true)

-- No borrow has the number.
abbrev pub Absent : ℕ → List BorrowRecord → Type 0
Absent i [] = Unit
Absent i (br ∷ brs) = (br.idx ≢ i) × Absent i brs

abbrev pub AreRecords : ℕ → List BorrowRecord → Type 0
AreRecords n [] = Unit
AreRecords n (br ∷ brs) = IsRecord n br × Absent br.idx brs × AreRecords n brs

Absent-retain :
    (i : ℕ) (q : BorrowRecord → Bool) (keep : Place → Bool) (brs : List BorrowRecord)
    → Absent i brs
    → Absent i (retain q (retain_holders keep brs))
unfolding retain_holders
Absent-retain i q keep [] a = tt
Absent-retain i q keep (br ∷ brs) a =
    elim (Bool-cases (q (record br { holders = retain keep br.holders }))) [
      | inl stays ↦ rw stays (a.0, Absent-retain i q keep brs a.1)
      | inr goes ↦ rw goes (Absent-retain i q keep brs a.1)
    ]

AreRecords-retain :
    (n : ℕ) (q : BorrowRecord → Bool) (keep : Place → Bool)
    → ((br : BorrowRecord) → q br ≡ true → is_held br ≡ true)
    → (brs : List BorrowRecord) → AreRecords n brs
    → AreRecords n (retain q (retain_holders keep brs))
unfolding retain_holders
AreRecords-retain n q keep held [] h = tt
AreRecords-retain n q keep held (br ∷ brs) h =
    let br' : BorrowRecord = record br { holders = retain keep br.holders } in
    let later = AreRecords-retain n q keep held brs h.2 in
    elim (Bool-cases (q br')) [
      | inl stays ↦
          rw stays
            ((h.0.0, held br' stays, h.0.2, h.0.3), Absent-retain br.idx q keep brs h.1, later)
      | inr goes ↦ rw goes later
    ]

nonempty-append : (hs : List Place) (p : Place) → nonempty (hs ++ p ∷ []) ≡ true
nonempty-append [] p = refl
nonempty-append (h ∷ hs) p = refl

is_held-append :
    (br : BorrowRecord) (p : Place) → is_held (record br { holders = br.holders ++ p ∷ [] }) ≡ true
unfolding is_held
is_held-append br p = nonempty-append br.holders p

Absent-propagate :
    (i : ℕ) (src dest : Place) (brs : List BorrowRecord)
    → Absent i brs
    → Absent i (propagate_to src dest brs)
unfolding propagate_to
Absent-propagate i src dest [] a = tt
Absent-propagate i src dest (br ∷ brs) a =
    elim (Bool-cases (contains br.holders src && not (contains br.holders dest))) [
      | inl adds ↦ rw adds (a.0, Absent-propagate i src dest brs a.1)
      | inr leaves ↦ rw leaves (a.0, Absent-propagate i src dest brs a.1)
    ]

AreRecords-propagate :
    (n : ℕ) (src dest : Place) (brs : List BorrowRecord)
    → AreRecords n brs
    → AreRecords n (propagate_to src dest brs)
unfolding propagate_to
AreRecords-propagate n src dest [] h = tt
AreRecords-propagate n src dest (br ∷ brs) h =
    let absent = Absent-propagate br.idx src dest brs h.1 in
    let later = AreRecords-propagate n src dest brs h.2 in
    elim (Bool-cases (contains br.holders src && not (contains br.holders dest))) [
      | inl adds ↦ rw adds ((h.0.0, is_held-append br dest, h.0.2, h.0.3), absent, later)
      | inr leaves ↦ rw leaves (h.0, absent, later)
    ]

Absent-activate : (i j : ℕ) (brs : List BorrowRecord) → Absent i brs → Absent i (activate j brs)
unfolding activate
Absent-activate i j [] a = tt
Absent-activate i j (br ∷ brs) a = elim (Bool-cases (br.idx == j)) [
  | inl found ↦ rw found a
  | inr other ↦ rw other (a.0, Absent-activate i j brs a.1)
]

AreRecords-activate :
    (n j : ℕ) (brs : List BorrowRecord) → AreRecords n brs → AreRecords n (activate j brs)
unfolding activate
AreRecords-activate n j [] h = tt
AreRecords-activate n j (br ∷ brs) h = elim (Bool-cases (br.idx == j)) [
  | inl found ↦ rw found (unfold is_held in ((h.0.0, h.0.1, h.0.2, λ e. refl), h.1, h.2))
  | inr other ↦ rw other (h.0, Absent-activate br.idx j brs h.1, AreRecords-activate n j brs h.2)
]

pub AreRecords-mono :
    (n m : ℕ) (brs : List BorrowRecord) → n ≤ m → AreRecords n brs → AreRecords m brs
AreRecords-mono n m [] le h = tt
AreRecords-mono n m (br ∷ brs) le h =
    ((omega arith, h.0.1, h.0.2, h.0.3), h.1, AreRecords-mono n m brs le h.2)

Absent-append :
    (i : ℕ) (brs : List BorrowRecord) (br : BorrowRecord)
    → br.idx ≢ i
    → Absent i brs
    → Absent i (brs ++ br ∷ [])
Absent-append i [] br ne a = (ne, tt)
Absent-append i (b ∷ brs) br ne a = (a.0, Absent-append i brs br ne a.1)

AreRecords-append :
    (n : ℕ) (brs : List BorrowRecord) (br : BorrowRecord)
    → br.idx ≡ n
    → IsRecord (n + 1) br
    → AreRecords n brs
    → AreRecords (n + 1) (brs ++ br ∷ [])
AreRecords-append n [] br e r h = (r, tt, tt)
AreRecords-append n (b ∷ brs) br e r h = (
  (omega arith, h.0.1, h.0.2, h.0.3),
  Absent-append b.idx brs br (omega arith) h.1,
  AreRecords-append n brs br e r h.2,
)

abbrev pub Numbered : Relation
Numbered c s = AreRecords c.next_borrow_idx s.borrows

pub report-next_borrow_idx :
    (e : BorrowError) (loc : Location) (c : Checker)
    → (report e loc c).next_borrow_idx ≡ c.next_borrow_idx
unfolding report
report-next_borrow_idx e loc c = elim (Bool-cases (contains c.reported (report_key loc e))) [
  | inl known ↦ rw known
  | inr new ↦ rw new
]

new-IsRecord :
    (n : ℕ) (kind : BorrowKind) (p dest : Place) (two_phase : Bool)
    → (two_phase ≡ true → is_mutable kind ≡ true)
    → IsRecord (n + 1) (record {
      idx = n;
      kind = kind;
      source = p;
      holders = dest ∷ [];
      two_phase = two_phase;
      activated = not two_phase;
    })
unfolding is_held
new-IsRecord n kind p dest two_phase tp = (omega arith, refl, tp, λ e. rw e)

-- Every primitive step of the checker keeps the borrows well formed.
pub Numbered-kept : (f : FunctionData) → Keeps f Numbered
unfolding deinitialize mark_initialized kill_holders_overwritten kill_borrows_at_local
    propagate_holders apply_kills
Numbered-kept f = record {
  on_report = λ e loc c s h. rw (report-next_borrow_idx e loc c) h;
  on_borrow = λ kind p dest two_phase tp c s h.
      AreRecords-append c.next_borrow_idx s.borrows _ refl
        (new-IsRecord c.next_borrow_idx kind p dest two_phase tp) h;
  on_move = λ p c s h. h;
  on_init = λ p c s h. h;
  on_overwrite = λ p c s h. AreRecords-retain _ is_held _ (λ br e. e) s.borrows h;
  on_storage = λ id c s h. AreRecords-retain _ _ _ (λ br e. (and_true _ _ e).0) s.borrows h;
  on_propagate = λ p q c s h. AreRecords-propagate _ p q s.borrows h;
  on_activate = λ idx c s h. AreRecords-activate _ idx s.borrows h;
  on_kill = λ live c s h. AreRecords-retain _ is_held _ (λ br e. e) s.borrows h;
}

-- The numbers given out only grow.
abbrev pub Past : ℕ → Relation
Past n c s = n ≤ c.next_borrow_idx

pub Past-kept : (n : ℕ) (f : FunctionData) → Keeps f (Past n)
Past-kept n f = record {
  on_report = λ e loc c s h. rw (report-next_borrow_idx e loc c) h;
  on_borrow = λ kind p dest two_phase tp c s h. omega arith;
  on_move = λ p c s h. h;
  on_init = λ p c s h. h;
  on_overwrite = λ p c s h. h;
  on_storage = λ id c s h. h;
  on_propagate = λ p q c s h. h;
  on_activate = λ idx c s h. h;
  on_kill = λ live c s h. h;
}

-- The entry states are not touched within a block.
abbrev pub Entries : List State → Relation
Entries ss c s = c.entry_states ≡ ss

report-entry_states :
    (e : BorrowError) (loc : Location) (c : Checker)
    → (report e loc c).entry_states ≡ c.entry_states
unfolding report
report-entry_states e loc c = elim (Bool-cases (contains c.reported (report_key loc e))) [
  | inl known ↦ rw known
  | inr new ↦ rw new
]

pub Entries-kept : (ss : List State) (f : FunctionData) → Keeps f (Entries ss)
Entries-kept ss f = record {
  on_report = λ e loc c s h. rw (report-entry_states e loc c) h;
  on_borrow = λ kind p dest two_phase tp c s h. h;
  on_move = λ p c s h. h;
  on_init = λ p c s h. h;
  on_overwrite = λ p c s h. h;
  on_storage = λ id c s h. h;
  on_propagate = λ p q c s h. h;
  on_activate = λ idx c s h. h;
  on_kill = λ live c s h. h;
}
