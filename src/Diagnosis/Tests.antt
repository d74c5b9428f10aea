-- ===== src/Diagnosis/Tests.antt =====
-- The ids of files on a list of pairs as the map; paths are numbers.
use nitrate.Prelude.{
  ℕ, ◌^◌, ◌<◌, ◌≡◌, ◌≢◌, ◌⊎◌, refl, sym, ap, ◌∙◌, inl, inr, false, Option, none, some, List, [],
  ◌∷◌, ◌==◌, if◌then◌else◌, Bool-cases, Option-cases, ==_iff, ==_refl,
}
use nitrate.Diagnosis.FileId.{
  BiMap, FileIdStore, interned, no_id, new_store, lookup_path, quick_check, insert_locked,
  get_or_create, Later, locked, now, step,
}
use nitrate.Diagnosis.FileId.Stays.{get_or_create_stays, get_or_create_total}

abbrev Pairs : Type 0
Pairs = List (ℕ × ℕ)

-- Newer pairs stand in front, and hide older ones with a value of theirs.
abbrev unless : ℕ → Option ℕ → Option ℕ
unless a none = none
unless a (some b) = if b == a then none else some b

abbrev left : Pairs → ℕ → Option ℕ
left [] i = none
left ((j, q) ∷ m) i = let older = unless q (left m i) in if i == j then some q else older

abbrev swap : Pairs → Pairs
swap [] = []
swap ((i, p) ∷ m) = (p, i) ∷ swap m

swap_twice : (m : Pairs) → swap (swap m) ≡ m
swap_twice [] = refl
swap_twice ((i, p) ∷ m) = ap (λ n. (i, p) ∷ n) (swap_twice m)

unless_apart : (a b : ℕ) → (b == a) ≡ false → unless a (some b) ≡ some b
unless_apart a b h = rw h refl

unless_inv : (a b : ℕ) (o : Option ℕ) → unless a o ≡ some b → (o ≡ some b) × ((b == a) ≡ false)
unless_inv a b none h = absurd (cc h)
unless_inv a b (some c) h = elim (Bool-cases (c == a)) [
  | inl same ↦ let hidden : none ≡ some b = rw same at h in absurd (cc hidden)
  | inr other ↦
      let kept : some c ≡ some b = rw other at h in
      let e : c ≡ b = cc kept in (kept, rw (sym e) other)
]

left-swap : (m : Pairs) (i p : ℕ) → left m i ≡ some p → left (swap m) p ≡ some i
left-swap [] i p h = absurd (cc h)
left-swap ((j, q) ∷ m) i p h = elim (Bool-cases (i == j)) [
  | inl here ↦
      let found : some q ≡ some p = rw here at h in
      let e : q ≡ p = cc found in
      let first : i ≡ j = (==_iff i j).0 here in rw (sym e, ==_refl q, first) refl
  | inr other ↦
      let older : unless q (left m i) ≡ some p = rw other at h in
      let (there, apart) = unless_inv q p (left m i) older in
      rw (apart, left-swap m i p there, unless_apart j i other) refl
]

left_insert :
    (m : Pairs) (i j p : ℕ) → j ≢ i → left (swap m) p ≡ none → left ((i, p) ∷ m) j ≡ left m j
left_insert m i j p apart fresh =
    let other : (j == i) ≡ false = elim (Bool-cases (j == i)) [
      | inl same ↦ absurd (apart ((==_iff j i).0 same))
      | inr other ↦ other
    ] in
    rw other (elim (Option-cases (left m j)) [
      | inl none_there ↦ rw none_there refl
      | inr (q, there) ↦ elim (Bool-cases (q == p)) [
        | inl same ↦
            let e : q ≡ p = (==_iff q p).0 same in
            let found = left-swap m j q there in absurd (cc (found, fresh, e))
        | inr differs ↦ rw there (unless_apart p q differs)
      ]
    ])

abbrev pairs : BiMap ℕ Pairs
pairs = record {
  new = [];
  get_by_left = left;
  get_by_right = λ m p. left (swap m) p;
  insert = λ i p m. (i, p) ∷ m;
  left_new = λ i. refl;
  left_right = left-swap;
  right_left = λ m i p h. ap (λ n. left n i) (sym (swap_twice m)) ∙ left-swap (swap m) p i h;
  insert_same = λ m i p. rw (==_refl i) refl;
  insert_other = λ m i j p apart fresh. left_insert m i j p apart fresh;
}

-- The store with one path.
abbrev one : FileIdStore Pairs
one = record { map = (1, 7) ∷ []; next_id = 2; id_space_exhausted = false }

abbrev two : FileIdStore Pairs
two = record { map = (2, 8) ∷ (1, 7) ∷ []; next_id = 3; id_space_exhausted = false }

-- The last id is given, and then no other.
abbrev last_free : FileIdStore Pairs
last_free = record { map = []; next_id = 65535; id_space_exhausted = false }

runs :
    (get_or_create pairs (new_store pairs) 7 ≡ (interned 1, one))
    × (get_or_create pairs one 8 ≡ (interned 2, two))
    × (get_or_create pairs two 7 ≡ (interned 1, two))
    × ((get_or_create pairs last_free 7).0 ≡ interned 65535)
    × ((get_or_create pairs (get_or_create pairs last_free 7).1 8).0 ≡ no_id)
unfolding get_or_create insert_locked
runs = (refl, refl, refl, refl, refl)

one-Later-two : Later pairs (get_or_create pairs (new_store pairs) 7).1 two
unfolding get_or_create insert_locked
one-Later-two = step now (locked one two 8 (interned 2) refl)

gives_one : (get_or_create pairs (new_store pairs) 7).0 ≡ interned 1
unfolding get_or_create insert_locked
gives_one = refl

get_or_create_stays_example :
    (lookup_path pairs two 1 ≡ some 7) × (get_or_create pairs two 7 ≡ (interned 1, two))
get_or_create_stays_example =
    get_or_create_stays pairs (new_store pairs) two 7 1 now gives_one one-Later-two

get_or_create_total_example :
    ((id : ℕ) × ((get_or_create pairs (new_store pairs) 7).0 ≡ interned id)
      × (0 < id)
      × (id < 2 ^ 16))
    ⊎ ((get_or_create pairs (new_store pairs) 7 ≡ (no_id, new_store pairs))
        × (quick_check pairs (new_store pairs) 7 ≡ none)
        × ((id : ℕ)
            → 0 < id
            → id < 2 ^ 16
            → (p : ℕ) × (lookup_path pairs (new_store pairs) id ≡ some p)))
get_or_create_total_example = get_or_create_total pairs (new_store pairs) 7 now
