-- ===== src/BorrowCheck/BitSet/Laws.antt =====
-- The bit set is a set of numbers: each operation is the set operation of its name.
use Prim.Native.Nat.{bit_or}
use nitrate.Prelude.{
  ℕ, zero, suc, ◌+◌, ◌-◌, ◌/◌, ◌%◌, ◌^◌, ◌≤◌, ◌<◌, Bool, true, false, not, ◌&&◌, ◌||◌, List, [],
  ◌∷◌, ◌++◌, length, get_or, set, replicate, ltb, leb, ◌==◌, ==_iff, ◌≡◌, ◌≢◌, inl, inr, refl, ◌∙◌,
  arith, Bool-cases, get_or-set_self, get_or-set_ne, length-append, length-replicate,
}
use nitrate.Prelude.Bits.{
  bit, bit-zero, bit-bit_or, bit-bit_and, bit-pow, bit-complement, mask_test,
}
use nitrate.BorrowCheck.BitSet.{
  BitSet, with_capacity, resize, insert, contains, zip_or, zip_and_not, union_with, subtract,
  words_eq, bit_set_eq,
}

-- Membership as the bits say it: a word that is not there has no bit set.
abbrev pub holds : List ℕ → ℕ → Bool
holds words idx = bit (get_or words (idx / 64) 0) (idx % 64)

get_or-beyond : (xs : List ℕ) (i : ℕ) → length xs ≤ i → get_or xs i 0 ≡ 0
get_or-beyond [] i h = refl
get_or-beyond (x ∷ xs) zero h = elim h [ ]
get_or-beyond (x ∷ xs) (suc i) h = get_or-beyond xs i (omega arith)

pub contains-holds : (s : BitSet) (idx : ℕ) → contains s idx ≡ holds s.words idx
unfolding contains
contains-holds s idx = elim (Bool-cases (ltb (idx / 64) (length s.words))) [
  | inl inside ↦ rw inside (rw mask_test (ground arith))
  | inr outside ↦ rw (outside, get_or-beyond s.words (idx / 64) (ground arith), bit-zero (idx % 64))
]

get_or-resize : (xs : List ℕ) (n i : ℕ) → get_or (xs ++ replicate n 0) i 0 ≡ get_or xs i 0
get_or-resize [] zero i = refl
get_or-resize [] (suc n) zero = refl
get_or-resize [] (suc n) (suc i) = get_or-resize [] n i
get_or-resize (x ∷ xs) n zero = refl
get_or-resize (x ∷ xs) n (suc i) = get_or-resize xs n i

pub contains-with_capacity : (n idx : ℕ) → contains (with_capacity n) idx ≡ false
unfolding with_capacity
contains-with_capacity n idx =
    contains-holds _ idx ∙ rw (get_or-resize [] ((n + 63) / 64) (idx / 64), bit-zero (idx % 64))

-- Indices are the same when their words and their bits are.
same_index : (i j : ℕ) → (i == j) ≡ (i / 64 == j / 64 && i % 64 == j % 64)
same_index i j = ground arith

holds-set_bit :
    (words : List ℕ) (i j : ℕ)
    → i / 64 < length words
    → holds (set words (i / 64) (bit_or (get_or words (i / 64) 0) (2 ^ (i % 64)))) j
      ≡ (holds words j || i == j)
holds-set_bit words i j h = elim (Bool-cases (i / 64 == j / 64)) [
  | inl same ↦
      let e = (==_iff (i / 64) (j / 64)).0 same in
      rw (← e) (
        rw (get_or-set_self words (i / 64) (bit_or (get_or words (i / 64) 0) (2 ^ (i % 64))) 0 h)
          (rw (bit-bit_or, bit-pow) (ground arith)))
  | inr other ↦
      let ne : i / 64 ≢ j / 64 = λ e. ground (arith, e) in
      rw
        (get_or-set_ne words (i / 64) (j / 64) (bit_or (get_or words (i / 64) 0) (2 ^ (i % 64))) 0
          ne)
        (ground arith)
]

length-resize : (xs : List ℕ) (n : ℕ) → length xs ≤ n → length (resize xs n) ≡ n
unfolding resize
length-resize xs n h =
    length-append xs (replicate (n - length xs) 0)
    ∙ omega (arith, length-replicate {A = ℕ} (n - length xs) 0)

holds-resize : (xs : List ℕ) (n j : ℕ) → holds (resize xs n) j ≡ holds xs j
unfolding resize
holds-resize xs n j = rw (get_or-resize xs (n - length xs) (j / 64))

holds-insert : (s : BitSet) (i j : ℕ) → holds (insert s i).words j ≡ (holds s.words j || i == j)
unfolding insert
holds-insert s i j = elim (Bool-cases (leb (length s.words) (i / 64))) [
  | inl grow ↦ rw grow (
      rw (← holds-resize s.words (i / 64 + 1) j) (
        holds-set_bit (resize s.words (i / 64 + 1)) i j
          (rw (length-resize s.words (i / 64 + 1) (ground arith)) (omega arith))))
  | inr fits ↦ rw fits (holds-set_bit s.words i j (ground arith))
]

pub contains-insert : (s : BitSet) (i j : ℕ) → contains (insert s i) j ≡ (contains s j || i == j)
contains-insert s i j = rw (contains-holds (insert s i) j, contains-holds s j) (holds-insert s i j)

holds-zip_or :
    (xs ys : List ℕ) (w b : ℕ)
    → length ys ≤ length xs
    → bit (get_or (zip_or xs ys) w 0) b ≡ (bit (get_or xs w 0) b || bit (get_or ys w 0) b)
unfolding zip_or
holds-zip_or [] [] w b h = rw (bit-zero b)
holds-zip_or [] (y ∷ ys) w b h = elim h [ ]
holds-zip_or (x ∷ xs) [] zero b h = rw (bit-zero b) (ground arith)
holds-zip_or (x ∷ xs) [] (suc w) b h = rw (bit-zero b) (ground arith)
holds-zip_or (x ∷ xs) (y ∷ ys) zero b h = bit-bit_or x y b
holds-zip_or (x ∷ xs) (y ∷ ys) (suc w) b h = holds-zip_or xs ys w b (omega arith)

holds-union_with :
    (s t : BitSet) (j : ℕ) → holds (union_with s t).words j ≡ (holds s.words j || holds t.words j)
unfolding union_with
holds-union_with s t j = elim (Bool-cases (ltb (length s.words) (length t.words))) [
  | inl grow ↦ rw grow (
      rw (← holds-resize s.words (length t.words) j) (
        holds-zip_or (resize s.words (length t.words)) t.words (j / 64) (j % 64)
          (rw (length-resize s.words (length t.words) (ground arith)) (omega arith))))
  | inr fits ↦ rw fits (holds-zip_or s.words t.words (j / 64) (j % 64) (ground arith))
]

pub contains-union_with :
    (s t : BitSet) (j : ℕ) → contains (union_with s t) j ≡ (contains s j || contains t j)
contains-union_with s t j =
    rw (contains-holds (union_with s t) j, contains-holds s j, contains-holds t j)
      (holds-union_with s t j)

-- Every word is a `u64`.
abbrev pub IsWords : List ℕ → Type 0
IsWords [] = Unit
IsWords (w ∷ ws) = (w < 2 ^ 64) × IsWords ws

abbrev pub IsBitSet : BitSet → Type 0
IsBitSet s = IsWords s.words

holds-zip_and_not :
    (xs ys : List ℕ) (w b : ℕ)
    → IsWords ys
    → b < 64
    → bit (get_or (zip_and_not xs ys) w 0) b
      ≡ (bit (get_or xs w 0) b && not (bit (get_or ys w 0) b))
unfolding zip_and_not
holds-zip_and_not [] ys w b h l = rw (bit-zero b)
holds-zip_and_not (x ∷ xs) [] zero b h l = rw (bit-zero b) (ground arith)
holds-zip_and_not (x ∷ xs) [] (suc w) b h l = rw (bit-zero b) (ground arith)
holds-zip_and_not (x ∷ xs) (y ∷ ys) zero b h l = rw (bit-bit_and, bit-complement 64 y b h.0 l)
holds-zip_and_not (x ∷ xs) (y ∷ ys) (suc w) b h l = holds-zip_and_not xs ys w b h.1 l

pub contains-subtract :
    (s t : BitSet) (j : ℕ)
    → IsBitSet t
    → contains (subtract s t) j ≡ (contains s j && not (contains t j))
unfolding subtract
contains-subtract s t j h =
    rw (contains-holds (subtract s t) j, contains-holds s j, contains-holds t j)
      (holds-zip_and_not s.words t.words (j / 64) (j % 64) h (omega arith))

-- Each operation of the bit set is the operation on sets of indices, at every index, however
-- many words the sets have.
pub bit_set_operations :
    (s t : BitSet) (n i j : ℕ)
    → IsBitSet t
    → (contains (with_capacity n) j ≡ false)
      × (contains (insert s i) j ≡ (contains s j || i == j))
      × (contains (union_with s t) j ≡ (contains s j || contains t j))
      × (contains (subtract s t) j ≡ (contains s j && not (contains t j)))
bit_set_operations s t n i j h = (
  contains-with_capacity n j,
  contains-insert s i j,
  contains-union_with s t j,
  contains-subtract s t j h,
)

words_eq-eq : (xs ys : List ℕ) → words_eq xs ys ≡ true → xs ≡ ys
unfolding words_eq
words_eq-eq [] [] h = refl
words_eq-eq (x ∷ xs) (y ∷ ys) h = ground (arith, words_eq-eq xs ys)
words_eq-eq _ _ h = cc

pub bit_set_eq-eq : (s t : BitSet) → bit_set_eq s t ≡ true → s.words ≡ t.words
unfolding bit_set_eq
bit_set_eq-eq s t h = words_eq-eq s.words t.words h
