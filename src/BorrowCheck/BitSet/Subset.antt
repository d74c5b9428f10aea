-- ===== src/BorrowCheck/BitSet/Subset.antt =====
-- The order of bit sets by their words, and the union as its least upper bound.
use Prim.Native.Nat.{bit_or, bit_or-bitwise}
use nitrate.Prelude.{
  ℕ, ◌+◌, ◌-◌, ◌≤◌, ◌<◌, List, [], ◌∷◌, ◌++◌, length, replicate, ltb, ◌≡◌, ◌≢◌, inl, inr, refl, ap,
  ◌∙◌, arith, Bool-cases, ◌==◌, ==_iff,
}
use nitrate.Prelude.Bits.{bit-bit_or, bit-bit_and, complement, WordLe, WordLe-le}
use nitrate.BorrowCheck.BitSet.{BitSet, resize, zip_or, zip_and_not, union_with}

pub data SubWords : List ℕ → List ℕ → Type 0 where
  sub_nil : {bs : List ℕ} → SubWords [] bs
  sub_cons :
      {a b : ℕ} {as_ bs : List ℕ} → WordLe a b → SubWords as_ bs → SubWords (a ∷ as_) (b ∷ bs)

pub SubWords-refl : (ws : List ℕ) → SubWords ws ws
SubWords-refl [] = sub_nil
SubWords-refl (w ∷ ws) = sub_cons (λ k h. h) (SubWords-refl ws)

pub SubWords-trans : {as_ bs cs : List ℕ} → SubWords as_ bs → SubWords bs cs → SubWords as_ cs
SubWords-trans sub_nil q = sub_nil
SubWords-trans (sub_cons p ps) (sub_cons q qs) =
    sub_cons (λ k h. q k (p k h)) (SubWords-trans ps qs)

-- The union, word by word, where the longer list gives the rest.
abbrev pub merge : List ℕ → List ℕ → List ℕ
merge [] bs = bs
merge (a ∷ as_) [] = a ∷ as_
merge (a ∷ as_) (b ∷ bs) = bit_or a b ∷ merge as_ bs

zip_or-merge : (as_ bs : List ℕ) → length bs ≤ length as_ → zip_or as_ bs ≡ merge as_ bs
unfolding zip_or
zip_or-merge [] [] h = refl
zip_or-merge [] (b ∷ bs) h = absurd (omega arith)
zip_or-merge (a ∷ as_) [] h = refl
zip_or-merge (a ∷ as_) (b ∷ bs) h = ap (λ ws. bit_or a b ∷ ws) (zip_or-merge as_ bs (omega arith))

zip_or-zeros : (bs : List ℕ) → zip_or (replicate (length bs) 0) bs ≡ bs
unfolding zip_or
zip_or-zeros [] = refl
zip_or-zeros (b ∷ bs) = rw (bit_or-bitwise 0 b, zip_or-zeros bs) refl

zip_or-pad :
    (as_ bs : List ℕ)
    → length as_ < length bs
    → zip_or (as_ ++ replicate (length bs - length as_) 0) bs ≡ merge as_ bs
unfolding zip_or
zip_or-pad [] bs h = ap (λ n. zip_or (replicate n 0) bs) (omega arith) ∙ zip_or-zeros bs
zip_or-pad (a ∷ as_) [] h = absurd (omega arith)
zip_or-pad (a ∷ as_) (b ∷ bs) h =
    ap (λ n. zip_or ((a ∷ as_) ++ replicate n 0) (b ∷ bs)) (omega arith)
    ∙ ap (λ ws. bit_or a b ∷ ws) (zip_or-pad as_ bs (omega arith))

pub union_with-merge : (s t : BitSet) → (union_with s t).words ≡ merge s.words t.words
unfolding union_with resize
union_with-merge s t = elim (Bool-cases (ltb (length s.words) (length t.words))) [
  | inl short ↦ rw short (zip_or-pad s.words t.words (ground arith))
  | inr long ↦ rw long (zip_or-merge s.words t.words (ground arith))
]

pub merge-left : (as_ bs : List ℕ) → SubWords as_ (merge as_ bs)
merge-left [] bs = sub_nil
merge-left (a ∷ as_) [] = SubWords-refl (a ∷ as_)
merge-left (a ∷ as_) (b ∷ bs) =
    sub_cons (λ k h. ground (arith, bit-bit_or a b k, h)) (merge-left as_ bs)

pub merge-right : (as_ bs : List ℕ) → SubWords bs (merge as_ bs)
merge-right [] bs = SubWords-refl bs
merge-right (a ∷ as_) [] = sub_nil
merge-right (a ∷ as_) (b ∷ bs) =
    sub_cons (λ k h. ground (arith, bit-bit_or a b k, h)) (merge-right as_ bs)

pub merge-least :
    {as_ bs cs : List ℕ} → SubWords as_ cs → SubWords bs cs → SubWords (merge as_ bs) cs
merge-least sub_nil q = q
merge-least (sub_cons p ps) sub_nil = sub_cons p ps
merge-least {as_ = a ∷ as_} {bs = b ∷ bs} {cs = c ∷ cs} (sub_cons p ps) (sub_cons q qs) =
    sub_cons (λ k h. ground (arith, bit-bit_or a b k, h, p k, q k)) (merge-least ps qs)

pub merge_mono :
    {as_ bs cs ds : List ℕ}
    → SubWords as_ bs
    → SubWords cs ds
    → SubWords (merge as_ cs) (merge bs ds)
merge_mono {as_} {bs} {cs} {ds} p q =
    merge-least (SubWords-trans p (merge-left bs ds)) (SubWords-trans q (merge-right bs ds))

pub zip_and_not-le : (as_ bs : List ℕ) → SubWords (zip_and_not as_ bs) as_
unfolding zip_and_not
zip_and_not-le [] bs = sub_nil
zip_and_not-le (a ∷ as_) [] = SubWords-refl (a ∷ as_)
zip_and_not-le (a ∷ as_) (b ∷ bs) =
    sub_cons (λ k h. ground (arith, bit-bit_and a (complement 64 b) k, h)) (zip_and_not-le as_ bs)

pub zip_and_not_mono :
    {as_ bs : List ℕ} (cs : List ℕ)
    → SubWords as_ bs
    → SubWords (zip_and_not as_ cs) (zip_and_not bs cs)
unfolding zip_and_not
zip_and_not_mono cs sub_nil = sub_nil
zip_and_not_mono [] (sub_cons p ps) = sub_cons p ps
zip_and_not_mono (c ∷ cs) (sub_cons {a} {b} p ps) =
    sub_cons
      (λ k h.
        ground
          (arith, bit-bit_and a (complement 64 c) k, bit-bit_and b (complement 64 c) k, h, p k))
      (zip_and_not_mono cs ps)

-- A measure that grows with the set.
abbrev pub size : List ℕ → ℕ
size [] = 0
size (w ∷ ws) = w + 1 + size ws

pub size_mono : {as_ bs : List ℕ} → SubWords as_ bs → size as_ ≤ size bs
size_mono sub_nil = omega arith
size_mono (sub_cons {a} {b} p ps) = omega (arith, WordLe-le a b p, size_mono ps)

pub size-strict : {as_ bs : List ℕ} → SubWords as_ bs → as_ ≢ bs → size as_ < size bs
size-strict {bs = []} sub_nil ne = absurd (ne refl)
size-strict {bs = b ∷ bs} sub_nil ne = omega arith
size-strict (sub_cons {a} {b} {as_} {bs} p ps) ne = elim (Bool-cases (a == b)) [
  | inl same ↦
      let e = (==_iff a b).0 same in omega (arith, e, size-strict ps (λ q. ne (rw (e, q) refl)))
  | inr other ↦ ground (arith, WordLe-le a b p, size_mono ps, other)
]
