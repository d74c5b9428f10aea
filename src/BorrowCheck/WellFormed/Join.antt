-- ===== src/BorrowCheck/WellFormed/Join.antt =====
-- Merging keeps the borrows well formed.
use nitrate.Prelude.{
  ℕ, true, ◌||◌, List, [], ◌∷◌, ◌++◌, some, ◌==◌, ◌≡◌, ◌≢◌, inl, inr, subst, arith, Bool-cases,
}
use mathlib.Core.Option.{some-injective, none-ne-some}
use nitrate.Prelude.Classes.{contains}
use nitrate.Mir.Place.{Place, place_has_eq}
use nitrate.BorrowCheck.State.{State, BorrowRecord, is_held, nonempty}
use nitrate.BorrowCheck.Merge.{add_holders, merge_borrow, merge_borrows, merge_set, merge_state}
use nitrate.BorrowCheck.WellFormed.{IsRecord, Absent, AreRecords, nonempty-append}

nonempty-add_holders :
    (hs more : List Place) → nonempty hs ≡ true → nonempty (add_holders hs more).0 ≡ true
unfolding add_holders
nonempty-add_holders hs [] h = h
nonempty-add_holders hs (p ∷ ps) h = elim (Bool-cases (contains hs p)) [
  | inl known ↦ rw (known, add_holders) (nonempty-add_holders hs ps h)
  | inr new ↦ rw (new, add_holders) (nonempty-add_holders (hs ++ p ∷ []) ps (nonempty-append hs p))
]

is_held-add_holders :
    (br : BorrowRecord) (more : List Place)
    → is_held br ≡ true
    → is_held (record br { holders = (add_holders br.holders more).0 }) ≡ true
unfolding is_held
is_held-add_holders br more h = nonempty-add_holders br.holders more h

Absent-merge_borrow :
    (i : ℕ) (rbs : List BorrowRecord) (eb : BorrowRecord)
    → eb.idx ≢ i
    → Absent i rbs
    → Absent i (merge_borrow rbs eb).0
unfolding merge_borrow
Absent-merge_borrow i [] eb ne a = (ne, tt)
Absent-merge_borrow i (rb ∷ rbs) eb ne a = elim (Bool-cases (rb.idx == eb.idx)) [
  | inl same ↦ rw same a
  | inr other ↦ rw other (a.0, Absent-merge_borrow i rbs eb ne a.1)
]

AreRecords-merge_borrow :
    (n : ℕ) (rbs : List BorrowRecord) (eb : BorrowRecord)
    → IsRecord n eb
    → AreRecords n rbs
    → AreRecords n (merge_borrow rbs eb).0
unfolding merge_borrow
AreRecords-merge_borrow n [] eb r h = (r, tt, tt)
AreRecords-merge_borrow n (rb ∷ rbs) eb r h = elim (Bool-cases (rb.idx == eb.idx)) [
  | inl same ↦ rw same ((h.0.0, is_held-add_holders rb eb.holders h.0.1, h.0.2, h.0.3), h.1, h.2)
  | inr other ↦ rw other (
    h.0,
    Absent-merge_borrow rb.idx rbs eb (λ e. ground (arith, e)) h.1,
    AreRecords-merge_borrow n rbs eb r h.2,
  )
]

AreRecords-merge_borrows :
    (n : ℕ) (rbs ebs : List BorrowRecord)
    → AreRecords n rbs
    → AreRecords n ebs
    → AreRecords n (merge_borrows rbs ebs).0
unfolding merge_borrows
AreRecords-merge_borrows n rbs [] h k = h
AreRecords-merge_borrows n rbs (eb ∷ ebs) h k =
    AreRecords-merge_borrows n (merge_borrow rbs eb).0 ebs (AreRecords-merge_borrow n rbs eb k.0 h)
      k.2

pub merge_state-AreRecords :
    (n : ℕ) (entry exit s : State)
    → AreRecords n entry.borrows
    → AreRecords n exit.borrows
    → merge_state entry exit ≡ some s
    → AreRecords n s.borrows
unfolding merge_state
merge_state-AreRecords n entry exit s h k e =
    let changed =
      (merge_borrows entry.borrows exit.borrows).1
      || (merge_set entry.moved exit.moved).1
      || (merge_set entry.uninit exit.uninit).1 in
    elim (Bool-cases changed) [
      | inl differs ↦
          subst (λ t. AreRecords n t.borrows) (some-injective _ s (rw differs at e))
            (AreRecords-merge_borrows n entry.borrows exit.borrows h k)
      | inr same ↦ absurd (none-ne-some s (rw same at e))
    ]
