-- ===== src/Evaluate/Memory/Entries.antt =====
-- The allocations of the heap as ranges of addresses, and the bytes that they hold together.
use nitrate.Prelude.{
  ℕ, ◌+◌, ◌-◌, ◌≤◌, ◌<◌, ◌≡◌, refl, ◌⊎◌, inl, inr, Bool, true, false, ◌&&◌, Option, none, some,
  List, [], ◌∷◌, ltb, leb, ◌==◌, if◌then◌else◌, length, get_elem?, Bool-cases, Option-cases, ==_iff,
  arith,
}
use nitrate.Prelude.Classes.{nat_eq}
use nitrate.Prelude.Maps.{lookup, remove, remove_absent}
use nitrate.Evaluate.Memory.{Allocation}

-- A map of allocations.
abbrev pub Entries : Type 0
Entries = List (ℕ × Allocation)

abbrev pub size : Allocation → ℕ
size a = length a.contents

-- Does the allocation at a base cover an address?
abbrev pub covers : ℕ → Allocation → ℕ → Bool
covers b a x = leb b x && ltb x (b + size a)

-- The heap as one array of bytes: the byte at an address, if an allocation covers it.
unfoldable pub load : Entries → ℕ → Option ℕ
load [] x = none
load ((b, a) ∷ m) x =
    let rest = load m x in if covers b a x then get_elem? a.contents (x - b) else rest

unfoldable pub total_size : Entries → ℕ
total_size [] = 0
total_size ((b, a) ∷ m) = size a + total_size m

-- Every allocation ends before an address.
unfoldable pub Below : ℕ → Entries → Type 0
Below n [] = Unit
Below n ((b, a) ∷ m) = (b + size a ≤ n) × Below n m

-- No other allocation has the base, and none shares an address with the range.
unfoldable pub Apart : ℕ → ℕ → Entries → Type 0
Apart b n [] = Unit
Apart b n ((c, a) ∷ m) = (((b == c) ≡ false) × ((b + n ≤ c) ⊎ (c + size a ≤ b))) × Apart b n m

unfoldable pub IsDisjoint : Entries → Type 0
IsDisjoint [] = Unit
IsDisjoint ((b, a) ∷ m) = Apart b (size a) m × IsDisjoint m

pub mono-Below : (n k : ℕ) (m : Entries) → n ≤ k → Below n m → Below k m
unfolding Below
mono-Below n k [] h p = tt
mono-Below n k (_ ∷ m) h p = (omega (arith, p.0), mono-Below n k m h p.1)

pub remove-Below : (n k : ℕ) (m : Entries) → Below n m → Below n (remove k m)
unfolding Below
remove-Below n k [] p = tt
remove-Below n k ((b, a) ∷ m) p = elim (Bool-cases (b == k)) [
  | inl same ↦ rw same p.1
  | inr other ↦ rw other (p.0, remove-Below n k m p.1)
]

pub lookup-Below :
    (n k : ℕ) (m : Entries) (a : Allocation) → Below n m → lookup k m ≡ some a → k + size a ≤ n
unfolding Below
lookup-Below n k [] a p h = absurd cc
lookup-Below n k ((b, c) ∷ m) a p h = ground (arith, lookup-Below n k m a)

remove-Apart : (b n k : ℕ) (m : Entries) → Apart b n m → Apart b n (remove k m)
unfolding Apart
remove-Apart b n k [] p = tt
remove-Apart b n k ((c, a) ∷ m) p = elim (Bool-cases (c == k)) [
  | inl same ↦ rw same p.1
  | inr other ↦ rw other (p.0, remove-Apart b n k m p.1)
]

pub remove-IsDisjoint : (k : ℕ) (m : Entries) → IsDisjoint m → IsDisjoint (remove k m)
unfolding IsDisjoint
remove-IsDisjoint k [] p = tt
remove-IsDisjoint k ((c, a) ∷ m) p = elim (Bool-cases (c == k)) [
  | inl same ↦ rw same p.1
  | inr other ↦ rw other (remove-Apart c (size a) k m p.0, remove-IsDisjoint k m p.1)
]

Apart-lookup :
    (b n k : ℕ) (m : Entries) (a : Allocation)
    → Apart b n m
    → lookup k m ≡ some a
    → ((b == k) ≡ false) × ((b + n ≤ k) ⊎ (k + size a ≤ b))
unfolding Apart
Apart-lookup b n k [] a p h = absurd cc
Apart-lookup b n k ((c, d) ∷ m) a p h = elim (Bool-cases (c == k)) [
  | inl same ↦
      let e : c ≡ k = (==_iff c k).0 same in let q : d ≡ a = ground arith in rw (e, q) at p.0
  | inr other ↦ Apart-lookup b n k m a p.1 (ground arith)
]

-- The range of an allocation is apart from the others.
pub lookup-Apart :
    (k : ℕ) (m : Entries) (a : Allocation)
    → IsDisjoint m
    → lookup k m ≡ some a
    → Apart k (size a) (remove k m)
unfolding IsDisjoint Apart
lookup-Apart k [] a p h = tt
lookup-Apart k ((c, d) ∷ m) a p h = elim (Bool-cases (c == k)) [
  | inl same ↦
      let e : c ≡ k = (==_iff c k).0 same in
      let q : d ≡ a = ground arith in rw same (rw (e, q) at p.0)
  | inr other ↦
      let found : lookup k m ≡ some a = ground arith in
      rw other (
        (ground arith, ground (arith, Apart-lookup c (size d) k m a p.0 found)),
        lookup-Apart k m a p.1 found,
      )
]

behind-Apart : (b n k : ℕ) (m : Entries) → Apart b k m → Below b m → Apart b n m
unfolding Below Apart
behind-Apart b n k [] q p = tt
behind-Apart b n k (_ ∷ m) q p = ((q.0.0, inr p.0), behind-Apart b n k m q.1 p.1)

-- A range behind all allocations is apart from them, but for an empty one at its base.
pub Below-Apart : (b n : ℕ) (m : Entries) → IsDisjoint m → Below b m → Apart b n (remove b m)
unfolding IsDisjoint Below Apart
Below-Apart b n [] q p = tt
Below-Apart b n ((c, a) ∷ m) q p = elim (Bool-cases (c == b)) [
  | inl same ↦
      let e : c ≡ b = (==_iff c b).0 same in rw same (behind-Apart b n (size a) m (rw e at q.0) p.1)
  | inr other ↦ rw other ((ground arith, inr p.0), Below-Apart b n m q.1 p.1)
]

load-Apart : (b n x : ℕ) (m : Entries) → Apart b n m → b ≤ x → x < b + n → load m x ≡ none
unfolding Apart load
load-Apart b n x [] p l h = refl
load-Apart b n x ((c, a) ∷ m) p l h = ground (arith, load-Apart b n x m)

-- An allocation that is looked up holds the bytes of its range.
pub load-lookup :
    (k x : ℕ) (m : Entries) (a : Allocation)
    → IsDisjoint m
    → lookup k m ≡ some a
    → covers k a x ≡ true
    → load m x ≡ get_elem? a.contents (x - k)
unfolding IsDisjoint load
load-lookup k x [] a p h c = absurd cc
load-lookup k x ((b, d) ∷ m) a p h c = elim (Bool-cases (b == k)) [
  | inl same ↦ ground (arith, same)
  | inr other ↦
      let found : lookup k m ≡ some a = ground arith in
      ground (arith, Apart-lookup b (size d) k m a p.0 found, load-lookup k x m a p.1 found c)
]

-- Removing an allocation takes the bytes of its range, and no others.
pub load-remove :
    (k x : ℕ) (m : Entries) (a : Allocation)
    → IsDisjoint m
    → lookup k m ≡ some a
    → load (remove k m) x ≡ (if covers k a x then none else load m x)
unfolding IsDisjoint load
load-remove k x [] a p h = absurd cc
load-remove k x ((b, d) ∷ m) a p h = elim (Bool-cases (b == k)) [
  | inl same ↦ rw same (ground (arith, same, load-Apart b (size d) x m p.0))
  | inr other ↦
      let found : lookup k m ≡ some a = ground arith in
      rw other
        (ground (arith, Apart-lookup b (size d) k m a p.0 found, load-remove k x m a p.1 found))
]

pub total_size-remove :
    (k : ℕ) (m : Entries) (a : Allocation)
    → lookup k m ≡ some a
    → total_size (remove k m) + size a ≡ total_size m
unfolding total_size
total_size-remove k [] a h = absurd cc
total_size-remove k ((b, d) ∷ m) a h = ground (arith, total_size-remove k m a)

-- Behind all allocations there is at most an empty one.
pub total_size-remove_behind :
    (k : ℕ) (m : Entries) → Below k m → total_size (remove k m) ≡ total_size m
total_size-remove_behind k m p = elim (Option-cases (lookup k m)) [
  | inl absent ↦ rw (remove_absent k m absent) refl
  | inr (a, found) ↦ omega (arith, total_size-remove k m a found, lookup-Below k k m a p found)
]

pub load-remove_behind :
    (k x : ℕ) (m : Entries) → IsDisjoint m → Below k m → load (remove k m) x ≡ load m x
load-remove_behind k x m d p = elim (Option-cases (lookup k m)) [
  | inl absent ↦ rw (remove_absent k m absent) refl
  | inr (a, found) ↦ ground (arith, load-remove k x m a d found, lookup-Below k k m a p found)
]
