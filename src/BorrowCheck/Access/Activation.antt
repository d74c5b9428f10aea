-- ===== src/BorrowCheck/Access/Activation.antt =====
-- The activation of a two-phase borrow.
use nitrate.Prelude.{
  ℕ, true, false, List, [], ◌∷◌, some, find?, ◌==◌, ◌≡◌, ◌≢◌, inl, inr, ap, arith, Bool-cases,
}
use mathlib.Core.List.{Memᴰ}
use mathlib.Core.Option.{some-injective}
use nitrate.BorrowCheck.Places.{overlaps, place_to_string}
use nitrate.BorrowCheck.Error.{two_phase_activation_conflict}
use nitrate.BorrowCheck.State.{State, Checker, Location, BorrowRecord, kind_str}
use nitrate.BorrowCheck.Access.{activate, activate_one, activation_conflict}
use nitrate.BorrowCheck.State.Reported.{Reported, IsKeyed, report_each-Reported}

abbrev pub active : BorrowRecord → BorrowRecord
active br = record br { activated = true }

find?-activate :
    (idx : ℕ) (brs : List BorrowRecord) (br : BorrowRecord)
    → find? (λ b. b.idx == idx) brs ≡ some br
    → find? (λ b. b.idx == idx) (activate idx brs) ≡ some (active br)
unfolding activate
find?-activate idx [] br h = absurd (ground (arith, h))
find?-activate idx (b ∷ brs) br h = elim (Bool-cases (b.idx == idx)) [
  | inl found ↦
      let same : b ≡ br = some-injective b br (rw found at h) in
      rw (found, activate) (rw found (ap (λ x. some (active x)) same))
  | inr other ↦ rw (other, activate) (rw other (find?-activate idx brs br (rw other at h)))
]

Memᴰ-activate :
    (idx : ℕ) (other : BorrowRecord) {brs : List BorrowRecord}
    → Memᴰ other brs
    → other.idx ≢ idx
    → Memᴰ other (activate idx brs)
unfolding activate
Memᴰ-activate idx other {brs = []} nowhere ne = elim nowhere [ ]
Memᴰ-activate idx other {brs = b ∷ brs} (Memᴰ.head same) ne =
    let e : other.idx ≡ b.idx = ap (λ br. br.idx) same in
    let passed : (b.idx == idx) ≡ false = ground (arith, e, ne) in rw passed (Memᴰ.head same)
Memᴰ-activate idx other {brs = b ∷ brs} (Memᴰ.tail later) ne = elim (Bool-cases (b.idx == idx)) [
  | inl found ↦ rw found (Memᴰ.tail later)
  | inr passed ↦ rw passed (Memᴰ.tail (Memᴰ-activate idx other later ne))
]

-- On a checker whose errors and keys stand side by side, the activation of a borrow activates it,
-- leaves its other fields as they were, and puts the error of every other active borrow of
-- overlapping memory among the errors of the checker, or finds one of the same location and text
-- there.
pub activate_one-Reported :
    (loc : Location) (idx : ℕ) (c : Checker) (s : State) (br : BorrowRecord)
    → IsKeyed c
    → find? (λ b. b.idx == idx) s.borrows ≡ some br
    → (find? (λ b. b.idx == idx) (activate_one loc idx c s).1.borrows ≡ some (active br))
      × ((other : BorrowRecord)
          → Memᴰ other s.borrows
          → other.idx ≢ idx
          → overlaps br.source other.source ≡ true
          → Reported
              (two_phase_activation_conflict
                (place_to_string br.source)
                (kind_str other.kind)
                "the two-phase mutable borrow was activated while another borrow of the same memory was still active")
              loc
              (activate_one loc idx c s).0)
unfolding activate_one activation_conflict
activate_one-Reported loc idx c s br keyed found =
    let now = find?-activate idx s.borrows br found in
    (
      now,
      λ other there ne overlap.
          let differs : (other.idx == idx) ≡ false = ground (arith, ne) in
          rw (now, activate_one)
            (report_each-Reported (activation_conflict idx br.source) loc _ c keyed
              (Memᴰ-activate idx other there ne) (rw (differs, overlap))),
    )
