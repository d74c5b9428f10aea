-- ===== src/BorrowCheck/BitSet/Bounds.antt =====
-- Every operation of the bit set keeps its words below 2 ^ 64.
use Prim.Native.Nat.{bit_or}
use nitrate.Prelude.{
  ℕ, zero, suc, ◌+◌, ◌-◌, ◌/◌, ◌%◌, ◌^◌, ◌<◌, List, [], ◌∷◌, ◌++◌, length, get_or, set, replicate,
  ltb, leb, inl, inr, arith, Bool-cases,
}
use native.Mathlib.Nat.{pow-suc, one-le-pow}
use nitrate.Prelude.Bits.{complement, bit_or-lt, bit_and-le}
use nitrate.BorrowCheck.BitSet.{
  BitSet, with_capacity, resize, insert, zip_or, zip_and_not, union_with, subtract,
}
use nitrate.BorrowCheck.BitSet.Laws.{IsWords, IsBitSet}

IsWords-append : (xs ys : List ℕ) → IsWords xs → IsWords ys → IsWords (xs ++ ys)
IsWords-append [] ys h k = k
IsWords-append (x ∷ xs) ys h k = (h.0, IsWords-append xs ys h.1 k)

IsWords-replicate : (n : ℕ) → IsWords (replicate n 0)
IsWords-replicate zero = tt
IsWords-replicate (suc n) = (omega arith, IsWords-replicate n)

IsWords-resize : (xs : List ℕ) (n : ℕ) → IsWords xs → IsWords (resize xs n)
unfolding resize
IsWords-resize xs n h = IsWords-append xs (replicate (n - length xs) 0) h (IsWords-replicate _)

IsWords-get_or : (xs : List ℕ) (i : ℕ) → IsWords xs → get_or xs i 0 < 2 ^ 64
IsWords-get_or [] i h = omega arith
IsWords-get_or (x ∷ xs) zero h = h.0
IsWords-get_or (x ∷ xs) (suc i) h = IsWords-get_or xs i h.1

IsWords-set : (xs : List ℕ) (i v : ℕ) → IsWords xs → v < 2 ^ 64 → IsWords (set xs i v)
IsWords-set [] i v h k = h
IsWords-set (x ∷ xs) zero v h k = (k, h.1)
IsWords-set (x ∷ xs) (suc i) v h k = (h.0, IsWords-set xs i v h.1 k)

pow_below : (n k : ℕ) → k < n → 2 ^ k < 2 ^ n
pow_below zero k h = elim h [ ]
pow_below (suc n) zero h = omega (arith, pow-suc 2 n, one-le-pow n 2)
pow_below (suc n) (suc k) h = omega (arith, pow-suc 2 n, pow-suc 2 k, pow_below n k (omega arith))

set_bit-IsWords :
    (xs : List ℕ) (w b : ℕ)
    → IsWords xs
    → b < 64
    → IsWords (set xs w (bit_or (get_or xs w 0) (2 ^ b)))
set_bit-IsWords xs w b h l =
    IsWords-set xs w _ h
      (bit_or-lt 64 (get_or xs w 0) (2 ^ b) (IsWords-get_or xs w h) (pow_below 64 b l))

pub insert-IsBitSet : (s : BitSet) (i : ℕ) → IsBitSet s → IsBitSet (insert s i)
unfolding insert
insert-IsBitSet s i h = elim (Bool-cases (leb (length s.words) (i / 64))) [
  | inl grow ↦ rw grow (
      set_bit-IsWords (resize s.words (i / 64 + 1)) (i / 64) (i % 64)
        (IsWords-resize s.words (i / 64 + 1) h) (omega arith))
  | inr fits ↦ rw fits (set_bit-IsWords s.words (i / 64) (i % 64) h (omega arith))
]

pub with_capacity-IsBitSet : (n : ℕ) → IsBitSet (with_capacity n)
unfolding with_capacity
with_capacity-IsBitSet n = IsWords-replicate ((n + 63) / 64)

IsWords-zip_or : (xs ys : List ℕ) → IsWords xs → IsWords ys → IsWords (zip_or xs ys)
unfolding zip_or
IsWords-zip_or [] ys h k = tt
IsWords-zip_or (x ∷ xs) [] h k = h
IsWords-zip_or (x ∷ xs) (y ∷ ys) h k = (bit_or-lt 64 x y h.0 k.0, IsWords-zip_or xs ys h.1 k.1)

pub union_with-IsBitSet : (s t : BitSet) → IsBitSet s → IsBitSet t → IsBitSet (union_with s t)
unfolding union_with
union_with-IsBitSet s t h k = elim (Bool-cases (ltb (length s.words) (length t.words))) [
  | inl grow ↦ rw grow (
      IsWords-zip_or (resize s.words (length t.words)) t.words
        (IsWords-resize s.words (length t.words) h) k)
  | inr fits ↦ rw fits (IsWords-zip_or s.words t.words h k)
]

IsWords-zip_and_not : (xs ys : List ℕ) → IsWords xs → IsWords (zip_and_not xs ys)
unfolding zip_and_not
IsWords-zip_and_not [] ys h = tt
IsWords-zip_and_not (x ∷ xs) [] h = h
IsWords-zip_and_not (x ∷ xs) (y ∷ ys) h =
    (omega (arith, bit_and-le x (complement 64 y), h.0), IsWords-zip_and_not xs ys h.1)

pub subtract-IsBitSet : (s t : BitSet) → IsBitSet s → IsBitSet (subtract s t)
unfolding subtract
subtract-IsBitSet s t h = IsWords-zip_and_not s.words t.words h
