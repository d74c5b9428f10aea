-- ===== src/BorrowCheck/Merge/Join.antt =====
-- `merge_state` is the join of two states: the union of their moved and uninitialized sets, and for
-- each borrow the union of its holders.
use nitrate.Prelude.{
  ℕ, false, ◌&&◌, ◌||◌, List, [], ◌∷◌, ◌≡◌, inl, inr, refl, sym, ap, ◌∙◌, arith, Bool-cases,
  or_false, ◌==◌, ==_iff,
}
use mathlib.Core.Bool.{false≢true}
use mathlib.Core.Option
use nitrate.Prelude.Classes.{contains, insert, contains-insert}
use nitrate.Mir.Place.{Place, place_has_eq}
use nitrate.BorrowCheck.State.{State, BorrowRecord}
use nitrate.BorrowCheck.State.Holders.{held}
use nitrate.BorrowCheck.Merge.{add_holders, merge_borrow, merge_borrows, merge_set, merge_state}

contains-merge_set :
    (xs ps : List Place) (q : Place)
    → contains (merge_set xs ps).0 q ≡ (contains xs q || contains ps q)
unfolding merge_set
contains-merge_set xs [] q = ground arith
contains-merge_set xs (p ∷ ps) q =
    contains-merge_set (insert xs p) ps q ∙ rw contains-insert (ground arith)

-- With the flag down, nothing was added.
merge_set_same : (xs ps : List Place) → (merge_set xs ps).1 ≡ false → (merge_set xs ps).0 ≡ xs
unfolding merge_set
merge_set_same xs [] h = refl
merge_set_same xs (p ∷ ps) h = elim (Bool-cases (contains xs p)) [
  | inl known ↦
      let old : insert xs p ≡ xs = rw known in
      merge_set_same (insert xs p) ps (or_false _ _ h).1 ∙ old
  | inr new ↦ absurd (false≢true (sym h ∙ rw new))
]

contains-add_holders :
    (hs more : List Place) (q : Place)
    → contains (add_holders hs more).0 q ≡ (contains hs q || contains more q)
unfolding add_holders
contains-add_holders hs [] q = ground arith
contains-add_holders hs (h ∷ more) q =
    contains-add_holders (insert hs h) more q ∙ rw contains-insert (ground arith)

add_holders_same :
    (hs more : List Place) → (add_holders hs more).1 ≡ false → (add_holders hs more).0 ≡ hs
unfolding add_holders
add_holders_same hs [] h = refl
add_holders_same hs (p ∷ ps) h = elim (Bool-cases (contains hs p)) [
  | inl known ↦
      let old : insert hs p ≡ hs = rw known in
      add_holders_same (insert hs p) ps (or_false _ _ h).1 ∙ old
  | inr new ↦ absurd (false≢true (sym h ∙ rw new))
]

held-merge_borrow :
    (rbs : List BorrowRecord) (eb : BorrowRecord) (i : ℕ) (h : Place)
    → held i h (merge_borrow rbs eb).0 ≡ (held i h rbs || (eb.idx == i && contains eb.holders h))
unfolding held merge_borrow
held-merge_borrow [] eb i h = ground arith
held-merge_borrow (rb ∷ rbs) eb i h = elim (Bool-cases (rb.idx == eb.idx)) [
  | inl same ↦ rw same (rw contains-add_holders (rw ((==_iff rb.idx eb.idx).0 same) (ground arith)))
  | inr other ↦ rw other (ground (arith, held-merge_borrow rbs eb i h))
]

held-merge_borrows :
    (rbs ebs : List BorrowRecord) (i : ℕ) (h : Place)
    → held i h (merge_borrows rbs ebs).0 ≡ (held i h rbs || held i h ebs)
unfolding merge_borrows
held-merge_borrows rbs [] i h = unfold held in ground arith
held-merge_borrows rbs (eb ∷ ebs) i h =
    held-merge_borrows (merge_borrow rbs eb).0 ebs i h
    ∙ rw held-merge_borrow (unfold held in ground arith)

merge_borrow_same :
    (rbs : List BorrowRecord) (eb : BorrowRecord)
    → (merge_borrow rbs eb).1 ≡ false
    → (merge_borrow rbs eb).0 ≡ rbs
unfolding merge_borrow
merge_borrow_same [] eb h = cc
merge_borrow_same (rb ∷ rbs) eb h = elim (Bool-cases (rb.idx == eb.idx)) [
  | inl same ↦ rw same (rw (add_holders_same rb.holders eb.holders (rw same at h)))
  | inr other ↦ rw other (ap (λ bs. rb ∷ bs) (merge_borrow_same rbs eb (rw other at h)))
]

merge_borrows_same :
    (rbs ebs : List BorrowRecord)
    → (merge_borrows rbs ebs).1 ≡ false
    → (merge_borrows rbs ebs).0 ≡ rbs
unfolding merge_borrows
merge_borrows_same rbs [] h = refl
merge_borrows_same rbs (eb ∷ ebs) h =
    let (a, b) = or_false (merge_borrow rbs eb).1 (merge_borrows (merge_borrow rbs eb).0 ebs).1 h in
    merge_borrows_same (merge_borrow rbs eb).0 ebs b ∙ merge_borrow_same rbs eb a

-- The entry state after a merge, changed or not.
unfoldable pub merged_entry : State → State → State
merged_entry entry exit = Option.get_or (merge_state entry exit) entry

merged_entry_parts :
    (entry exit : State)
    → merged_entry entry exit ≡ record {
      borrows = (merge_borrows entry.borrows exit.borrows).0;
      moved = (merge_set entry.moved exit.moved).0;
      uninit = (merge_set entry.uninit exit.uninit).0;
    }
unfolding merged_entry merge_state
merged_entry_parts entry exit =
    let b = (merge_borrows entry.borrows exit.borrows).1 in
    let m = (merge_set entry.moved exit.moved).1 in
    let u = (merge_set entry.uninit exit.uninit).1 in
    elim (Bool-cases (b || m || u)) [
      | inl changed ↦ rw changed
      | inr same ↦
          let (bm, u') = or_false (b || m) u same in
          let (b', m') = or_false b m bm in
          rw same (
            rw (
              merge_borrows_same entry.borrows exit.borrows b',
              merge_set_same entry.moved exit.moved m',
              merge_set_same entry.uninit exit.uninit u',
            ))
    ]

-- After a merge, changed or not, the entry state has what it had and what the exit state has, and
-- nothing else: moved places, uninitialized places, and the holders of each borrow.
pub merge_state_join :
    (entry exit : State) (q : Place) (i : ℕ)
    → (contains (merged_entry entry exit).moved q
        ≡ (contains entry.moved q || contains exit.moved q))
      × (contains (merged_entry entry exit).uninit q
          ≡ (contains entry.uninit q || contains exit.uninit q))
      × (held i q (merged_entry entry exit).borrows
          ≡ (held i q entry.borrows || held i q exit.borrows))
merge_state_join entry exit q i = rw merged_entry_parts (
  contains-merge_set entry.moved exit.moved q,
  contains-merge_set entry.uninit exit.uninit q,
  held-merge_borrows entry.borrows exit.borrows i q,
)
