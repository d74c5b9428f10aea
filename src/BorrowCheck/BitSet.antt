-- ===== src/BorrowCheck/BitSet.antt =====
-- `BitSet` of liveness.rs: a set of local indices in 64-bit words.
pub mod Laws
pub mod Bounds
pub mod Subset
use Prim.Native.Nat.{bit_and, bit_or}
use nitrate.Prelude.{
  ℕ, zero, suc, ◌+◌, ◌-◌, ◌/◌, ◌%◌, ◌^◌, Bool, true, false, not, ◌&&◌, List, [], ◌∷◌, ◌++◌, length,
  get_or, set, replicate, if◌then◌else◌, ltb, leb, ◌==◌,
}
use nitrate.Prelude.Bits.{complement}

pub record BitSet : Type 0 where
  pub words : List ℕ

-- `nlocals.div_ceil(64)` words of zeros
unfoldable pub with_capacity : ℕ → BitSet
with_capacity nlocals = record { words = replicate ((nlocals + 63) / 64) 0 }

-- `resize(n, 0)` where `n` is not below the length: zeros are put behind.
unfoldable pub resize : List ℕ → ℕ → List ℕ
resize words n = words ++ replicate (n - length words) 0

set_bit : List ℕ → ℕ → ℕ → List ℕ
set_bit words word b = set words word (bit_or (get_or words word 0) (2 ^ b))

unfoldable pub insert : BitSet → ℕ → BitSet
unfolding set_bit resize
insert s idx =
    let word = idx / 64 in
    let words = if leb (length s.words) word then resize s.words (word + 1) else s.words in
    record { words = set_bit words word (idx % 64) }

unfoldable pub contains : BitSet → ℕ → Bool
contains s idx =
    ltb (idx / 64) (length s.words)
    && not (bit_and (get_or s.words (idx / 64) 0) (2 ^ (idx % 64)) == 0)

-- `iter_mut().zip(..)` changes the words that both have, and leaves the others.
unfoldable pub zip_or : List ℕ → List ℕ → List ℕ
zip_or [] bs = []
zip_or (a ∷ as_) [] = a ∷ as_
zip_or (a ∷ as_) (b ∷ bs) = bit_or a b ∷ zip_or as_ bs

unfoldable pub zip_and_not : List ℕ → List ℕ → List ℕ
zip_and_not [] bs = []
zip_and_not (a ∷ as_) [] = a ∷ as_
zip_and_not (a ∷ as_) (b ∷ bs) = bit_and a (complement 64 b) ∷ zip_and_not as_ bs

unfoldable pub union_with : BitSet → BitSet → BitSet
union_with s other =
    let words =
      if ltb (length s.words) (length other.words)
      then resize s.words (length other.words)
      else s.words in
    record { words = zip_or words other.words }

unfoldable pub subtract : BitSet → BitSet → BitSet
subtract s other = record { words = zip_and_not s.words other.words }

-- The derived `PartialEq` compares the words.
unfoldable pub words_eq : List ℕ → List ℕ → Bool
words_eq [] [] = true
words_eq (a ∷ as_) (b ∷ bs) = a == b && words_eq as_ bs
words_eq _ _ = false

unfoldable pub bit_set_eq : BitSet → BitSet → Bool
bit_set_eq s t = words_eq s.words t.words
