-- ===== src/BorrowCheck/Merge.antt =====
-- `merge_state` of check.rs: the join of an exit state into the entry state of a successor.
pub mod Join
use nitrate.Prelude.{
  Bool, true, false, not, ◌||◌, List, [], ◌∷◌, ◌++◌, Option, none, some, if◌then◌else◌, ◌==◌,
}
use nitrate.Prelude.Classes.{contains, insert}
use nitrate.Mir.Place.{Place, place_has_eq}
use nitrate.BorrowCheck.State.{State, BorrowRecord}

-- Borrows merge by index: the holders are joined, and a new index is put behind.
unfoldable pub add_holders : List Place → List Place → List Place × Bool
add_holders hs [] = (hs, false)
add_holders hs (h ∷ more) =
    let known = contains hs h in
    let (hs', changed) = add_holders (if known then hs else hs ++ h ∷ []) more in
    (hs', not known || changed)

unfoldable pub merge_borrow : List BorrowRecord → BorrowRecord → List BorrowRecord × Bool
merge_borrow [] eb = (eb ∷ [], true)
merge_borrow (rb ∷ rbs) eb =
    let later : List BorrowRecord × Bool =
      let (rbs', changed) = merge_borrow rbs eb in (rb ∷ rbs', changed) in
    let (hs, changed) = add_holders rb.holders eb.holders in
    if rb.idx == eb.idx then (record rb { holders = hs } ∷ rbs, changed) else later

unfoldable pub merge_borrows : List BorrowRecord → List BorrowRecord → List BorrowRecord × Bool
merge_borrows rbs [] = (rbs, false)
merge_borrows rbs (eb ∷ ebs) =
    let (rbs', changed) = merge_borrow rbs eb in
    let (rbs'', changed') = merge_borrows rbs' ebs in (rbs'', changed || changed')

unfoldable pub merge_set : List Place → List Place → List Place × Bool
merge_set xs [] = (xs, false)
merge_set xs (p ∷ ps) =
    let fresh = not (contains xs p) in
    let (xs', changed) = merge_set (insert xs p) ps in (xs', fresh || changed)

-- `some` of the merged state, where it differs from the entry state.
unfoldable pub merge_state : State → State → Option State
merge_state entry exit =
    let (borrows, b) = merge_borrows entry.borrows exit.borrows in
    let (moved, m) = merge_set entry.moved exit.moved in
    let (uninit, u) = merge_set entry.uninit exit.uninit in
    if b || m || u
    then some (record { borrows = borrows; moved = moved; uninit = uninit })
    else none
