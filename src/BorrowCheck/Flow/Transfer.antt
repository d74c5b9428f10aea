-- ===== src/BorrowCheck/Flow/Transfer.antt =====
-- What one step of the backward pass does to each local.
use nitrate.Prelude.{ℕ, not, ◌&&◌, ◌||◌, ◌≡◌, ◌∙◌, ap}
use nitrate.BorrowCheck.BitSet.{BitSet, contains, union_with}
use nitrate.BorrowCheck.BitSet.Laws.{IsBitSet, contains-union_with, contains-subtract}
use nitrate.BorrowCheck.Liveness.{UseDef}
use nitrate.BorrowCheck.Flow.{transfer}

-- A local is live before a statement exactly where it is used there or live behind it, and not
-- defined there: a local that the statement both uses and defines is not live before it.
pub contains-transfer :
    (u : UseDef) (live : BitSet) (j : ℕ)
    → IsBitSet u.defs
    → contains (transfer u live) j
      ≡ ((contains u.uses j || contains live j) && not (contains u.defs j))
unfolding transfer
contains-transfer u live j h =
    contains-subtract (union_with u.uses live) u.defs j h
    ∙ ap (λ x. x && not (contains u.defs j)) (contains-union_with u.uses live j)
