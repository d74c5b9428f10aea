-- ===== src/BorrowCheck/Flow/Order.antt =====
-- The backward pass and the union over the successors are monotone, and stay below any set that
-- holds the used locals.
use nitrate.Prelude.{ℕ, zero, suc, ◌+◌, ◌/◌, List, [], ◌∷◌, get_or, replicate, arith}
use nitrate.Prelude.Bits.{bit-zero}
use nitrate.BorrowCheck.Function.{FunctionData}
use nitrate.BorrowCheck.BitSet.{BitSet, with_capacity, zip_and_not, union_with, subtract}
use nitrate.BorrowCheck.BitSet.Subset.{
  SubWords, sub_nil, sub_cons, SubWords-refl, SubWords-trans, union_with-merge, merge_mono,
  merge-left, merge-right, merge-least, zip_and_not-le, zip_and_not_mono,
}
use nitrate.BorrowCheck.Liveness.{UseDef}
use nitrate.BorrowCheck.Flow.{transfer, backward, union_successors}
use nitrate.BorrowCheck.Flow.Visit.{empty_set}

abbrev pub Below : BitSet → BitSet → Type 0
Below s t = SubWords s.words t.words

union_with_mono :
    (s t u v : BitSet) → Below s t → Below u v → Below (union_with s u) (union_with t v)
union_with_mono s t u v p q = rw (union_with-merge s u, union_with-merge t v) (merge_mono p q)

pub union_with_left : (s t : BitSet) → Below s (union_with s t)
union_with_left s t = rw (union_with-merge s t) (merge-left s.words t.words)

pub union_with_right : (s t : BitSet) → Below t (union_with s t)
union_with_right s t = rw (union_with-merge s t) (merge-right s.words t.words)

union_with_least : (s t u : BitSet) → Below s u → Below t u → Below (union_with s t) u
union_with_least s t u p q = rw (union_with-merge s t) (merge-least p q)

transfer_mono : (u : UseDef) (s t : BitSet) → Below s t → Below (transfer u s) (transfer u t)
unfolding transfer subtract
transfer_mono u s t p =
    zip_and_not_mono u.defs.words (union_with_mono u.uses u.uses s t (SubWords-refl u.uses.words) p)

pub backward_mono :
    (us : List UseDef) (s t : BitSet) → Below s t → Below (backward us s).1 (backward us t).1
unfolding backward
backward_mono [] s t p = p
backward_mono (u ∷ us) s t p =
    transfer_mono u (backward us s).1 (backward us t).1 (backward_mono us s t p)

zeros-zip_and_not :
    (n : ℕ) (bs : List ℕ) → SubWords (replicate n 0) (zip_and_not (replicate n 0) bs)
unfolding zip_and_not
zeros-zip_and_not zero bs = sub_nil
zeros-zip_and_not (suc n) [] = SubWords-refl (0 ∷ replicate n 0)
zeros-zip_and_not (suc n) (b ∷ bs) =
    sub_cons (λ k h. absurd (ground (arith, bit-zero k, h))) (zeros-zip_and_not n bs)

empty-transfer :
    (n : ℕ) (u : UseDef) (s : BitSet)
    → Below (with_capacity n) s
    → Below (with_capacity n) (transfer u s)
unfolding transfer subtract with_capacity
empty-transfer n u s p =
    SubWords-trans (zeros-zip_and_not ((n + 63) / 64) u.defs.words)
      (zip_and_not_mono u.defs.words (SubWords-trans p (union_with_right u.uses s)))

pub empty-backward :
    (n : ℕ) (us : List UseDef) (s : BitSet)
    → Below (with_capacity n) s
    → Below (with_capacity n) (backward us s).1
unfolding backward
empty-backward n [] s p = p
empty-backward n (u ∷ us) s p = empty-transfer n u (backward us s).1 (empty-backward n us s p)

-- Every use of the statements is in the set.
abbrev pub UsesBelow : BitSet → List UseDef → Type 0
UsesBelow top [] = Unit
UsesBelow top (u ∷ us) = Below u.uses top × UsesBelow top us

pub backward-Below :
    (top : BitSet) (us : List UseDef) (s : BitSet)
    → UsesBelow top us
    → Below s top
    → Below (backward us s).1 top
unfolding backward transfer subtract
backward-Below top [] s h p = p
backward-Below top (u ∷ us) s h p =
    SubWords-trans (zip_and_not-le (union_with u.uses (backward us s).1).words u.defs.words)
      (union_with_least u.uses (backward us s).1 top h.0 (backward-Below top us s h.1 p))

UsesBelow-trans : (s t : BitSet) (us : List UseDef) → Below s t → UsesBelow s us → UsesBelow t us
UsesBelow-trans s t [] p h = tt
UsesBelow-trans s t (u ∷ us) p h = (SubWords-trans h.0 p, UsesBelow-trans s t us p h.1)

-- The locals used in a block, with those of a set.
abbrev with_uses : List UseDef → BitSet → BitSet
with_uses [] acc = acc
with_uses (u ∷ us) acc = union_with u.uses (with_uses us acc)

with_uses_acc : (us : List UseDef) (acc : BitSet) → Below acc (with_uses us acc)
with_uses_acc [] acc = SubWords-refl acc.words
with_uses_acc (u ∷ us) acc =
    SubWords-trans (with_uses_acc us acc) (union_with_right u.uses (with_uses us acc))

UsesBelow-with_uses : (us : List UseDef) (acc : BitSet) → UsesBelow (with_uses us acc) us
UsesBelow-with_uses [] acc = tt
UsesBelow-with_uses (u ∷ us) acc = (
  union_with_left u.uses (with_uses us acc),
  UsesBelow-trans (with_uses us acc) (with_uses (u ∷ us) acc) us
      (union_with_right u.uses (with_uses us acc)) (UsesBelow-with_uses us acc),
)

-- All locals that are used anywhere.
abbrev pub all_uses : BitSet → List (List UseDef) → BitSet
all_uses acc [] = acc
all_uses acc (us ∷ uss) = with_uses us (all_uses acc uss)

pub all_uses_acc : (acc : BitSet) (uss : List (List UseDef)) → Below acc (all_uses acc uss)
all_uses_acc acc [] = SubWords-refl acc.words
all_uses_acc acc (us ∷ uss) =
    SubWords-trans (all_uses_acc acc uss) (with_uses_acc us (all_uses acc uss))

pub UsesBelow-all_uses :
    (acc : BitSet) (uss : List (List UseDef)) (b : ℕ)
    → UsesBelow (all_uses acc uss) (get_or uss b [])
UsesBelow-all_uses acc [] b = tt
UsesBelow-all_uses acc (us ∷ uss) zero = UsesBelow-with_uses us (all_uses acc uss)
UsesBelow-all_uses acc (us ∷ uss) (suc b) =
    UsesBelow-trans (all_uses acc uss) (with_uses us (all_uses acc uss)) (get_or uss b [])
      (with_uses_acc us (all_uses acc uss)) (UsesBelow-all_uses acc uss b)

module _ (f : FunctionData) (usedefs : List (List UseDef)) where
  abbrev pub AllBelow : List BitSet → List BitSet → Type 0
  AllBelow xs ys =
      (b : ℕ) → Below (get_or xs b (empty_set f usedefs)) (get_or ys b (empty_set f usedefs))

  pub union_successors_mono :
      (succs : List ℕ) (xs ys : List BitSet) (s t : BitSet)
      → AllBelow xs ys
      → Below s t
      → Below (union_successors f usedefs succs xs s) (union_successors f usedefs succs ys t)
  unfolding union_successors
  union_successors_mono [] xs ys s t h p = p
  union_successors_mono (b ∷ bs) xs ys s t h p =
      union_successors_mono bs xs ys _ _ h (union_with_mono s t _ _ p (h b))

  pub union_successors_acc :
      (succs : List ℕ) (xs : List BitSet) (s : BitSet)
      → Below s (union_successors f usedefs succs xs s)
  unfolding union_successors
  union_successors_acc [] xs s = SubWords-refl s.words
  union_successors_acc (b ∷ bs) xs s =
      SubWords-trans (union_with_left s (get_or xs b (empty_set f usedefs)))
        (union_successors_acc bs xs _)

  pub union_successors-Below :
      (top : BitSet) (succs : List ℕ) (xs : List BitSet) (s : BitSet)
      → ((b : ℕ) → Below (get_or xs b (empty_set f usedefs)) top)
      → Below s top
      → Below (union_successors f usedefs succs xs s) top
  unfolding union_successors
  union_successors-Below top [] xs s h p = p
  union_successors-Below top (b ∷ bs) xs s h p =
      union_successors-Below top bs xs _ h (union_with_least s _ top p (h b))
