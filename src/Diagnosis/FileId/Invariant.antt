-- ===== src/Diagnosis/FileId/Invariant.antt =====
-- The ids that are given are the first ones.
use nitrate.Prelude.{
  ℕ, ◌+◌, ◌%◌, ◌^◌, ◌≤◌, ◌<◌, ◌≡◌, ◌≢◌, ◌⊎◌, refl, sym, ap, subst, ◌∙◌, inl, inr, Bool, true, false,
  none, some, ◌==◌, if◌then◌else◌, Bool-cases, Option-cases, arith,
}
use nitrate.Diagnosis.FileId.{
  BiMap, FileIdStore, Interned, interned, no_id, new_store, insert_next, insert_unless,
  insert_locked, Step, Later, locked, now, step,
}

pos : (n : ℕ) → (n + 1 == 0) ≡ false
pos n = ground arith

if_same : (b : Bool) → (if b then true else false) ≡ b
if_same true = refl
if_same false = refl

module _ {P M : Type 0} (bimap : BiMap P M) where
  -- The ids from 1 on, up to some number, are those in the map; the next one is behind them, and the
  -- ids are exhausted where all of 16 bits are taken.
  pub record IsStore (s : FileIdStore M) : Type 0 where
    pub count : ℕ
    pub within : count < 2 ^ 16
    pub next : s.next_id ≡ (count + 1) % 2 ^ 16
    pub full : s.id_space_exhausted ≡ (count == 65535)
    pub present : (i : ℕ) (p : P) → bimap.get_by_left s.map i ≡ some p → (0 < i) × (i ≤ count)
    pub filled : (i : ℕ) → 0 < i → i ≤ count → (p : P) × (bimap.get_by_left s.map i ≡ some p)

  new_store-IsStore : IsStore (new_store bimap)
  new_store-IsStore = record {
    count = 0;
    within = omega arith;
    next = refl;
    full = refl;
    present = λ i p h. absurd (cc (bimap.left_new i, h));
    filled = λ i h k. absurd (omega arith);
  }

  -- The store behind a new id.
  abbrev pub created : FileIdStore M → ℕ → P → FileIdStore M
  created s n path = record {
    map = bimap.insert (n + 1) path s.map;
    next_id = (n + 1 + 1) % 2 ^ 16;
    id_space_exhausted = n + 1 == 65535;
  }

  insert_next_pos :
      (s : FileIdStore M) (path : P) (n : ℕ)
      → s.next_id ≡ n + 1
      → s.id_space_exhausted ≡ false
      → insert_next bimap s path ≡ (interned (n + 1), created s n path)
  unfolding insert_next
  insert_next_pos s path n next free = rw (next, free) (rw (pos n, if_same (n + 1 == 65535)) refl)

  abbrev either : FileIdStore M → P → Bool → Interned × FileIdStore M
  either s path exhausted = if exhausted then (no_id, s) else insert_next bimap s path

  insert_locked_fresh :
      (s : FileIdStore M) (path : P)
      → bimap.get_by_right s.map path ≡ none
      → insert_locked bimap s path
        ≡ (if s.id_space_exhausted then (no_id, s) else insert_next bimap s path)
  unfolding insert_locked insert_unless
  insert_locked_fresh s path fresh = ap (insert_unless bimap s path) fresh

  pub insert_locked_known :
      (s : FileIdStore M) (path : P) (id : ℕ)
      → bimap.get_by_right s.map path ≡ some id
      → insert_locked bimap s path ≡ (interned id, s)
  unfolding insert_locked insert_unless
  insert_locked_known s path id e = ap (insert_unless bimap s path) e

  -- The ways of a call under the write lock.
  pub insert_locked_cases :
      (s : FileIdStore M) (path : P) (i : IsStore s)
      → ((id : ℕ) × (bimap.get_by_right s.map path ≡ some id)
          × (insert_locked bimap s path ≡ (interned id, s)))
        ⊎ ((bimap.get_by_right s.map path ≡ none)
            × (i.count ≡ 65535)
            × (insert_locked bimap s path ≡ (no_id, s)))
        ⊎ ((bimap.get_by_right s.map path ≡ none)
            × (i.count < 65535)
            × (insert_locked bimap s path ≡ (interned (i.count + 1), created s i.count path)))
  insert_locked_cases s path i = elim (Option-cases (bimap.get_by_right s.map path)) [
    | inr (id, e) ↦ inl (id, e, insert_locked_known s path id e)
    | inl fresh ↦ elim (Bool-cases s.id_space_exhausted) [
      | inl taken ↦ inr (
          inl (
            fresh,
            ground (arith, taken, i.full),
            insert_locked_fresh s path fresh ∙ ap (either s path) taken,
          ))
      | inr free ↦
          let below : i.count < 65535 = ground (arith, free, i.full, i.within) in
          let next : s.next_id ≡ i.count + 1 = omega (arith, i.next) in
          inr (
            inr (
              fresh,
              below,
              insert_locked_fresh s path fresh
                  ∙ ap (either s path) free
                  ∙ insert_next_pos s path i.count next free,
            ))
    ]
  ]

  created-IsStore :
      (s : FileIdStore M) (path : P) (i : IsStore s)
      → bimap.get_by_right s.map path ≡ none
      → i.count < 65535
      → IsStore (created s i.count path)
  created-IsStore s path i fresh l = record {
    count = i.count + 1;
    within = omega arith;
    next = refl;
    full = refl;
    present = λ j p h. elim (Bool-cases (j == i.count + 1)) [
      | inl last ↦ ground arith
      | inr other ↦
          let apart : j ≢ i.count + 1 = λ e. absurd (ground (arith, e)) in
          let (pos, within) =
            i.present j p (sym (bimap.insert_other s.map (i.count + 1) j path apart fresh) ∙ h) in
          (pos, omega arith)
    ];
    filled = λ j h k. elim (Bool-cases (j == i.count + 1)) [
      | inl last ↦
          let e : j ≡ i.count + 1 = ground arith in
          (path, rw e (bimap.insert_same s.map (i.count + 1) path))
      | inr other ↦
          let apart : j ≢ i.count + 1 = λ e. absurd (ground (arith, e)) in
          let (p, e) = i.filled j h (ground arith) in
          (p, bimap.insert_other s.map (i.count + 1) j path apart fresh ∙ e)
    ];
  }

  pub Step-IsStore : (s t : FileIdStore M) → Step bimap s t → IsStore s → IsStore t
  Step-IsStore s t change i = elim change [
    | locked s t path r q ↦ elim (insert_locked_cases s path i) [
      | inl (id, _, e) ↦ subst IsStore (ap (λ x. x.1) (sym e ∙ q)) i
      | inr (inl (_, _, e)) ↦ subst IsStore (ap (λ x. x.1) (sym e ∙ q)) i
      | inr (inr (fresh, l, e)) ↦
          subst IsStore (ap (λ x. x.1) (sym e ∙ q)) (created-IsStore s path i fresh l)
    ]
  ]

  pub Later-IsStore : (s t : FileIdStore M) → Later bimap s t → IsStore s → IsStore t
  Later-IsStore s t later i = elim later as (λ u _. IsStore u) [
    | now ↦ i
    | step (before → ih) change ↦ Step-IsStore _ _ change ih
  ]

  -- Whatever calls threads make on the empty store, in whatever order, the ids in the map are the first
  -- ones, and the counter and the flag are as the number of ids says.
  pub reachable-IsStore : (s : FileIdStore M) → Later bimap (new_store bimap) s → IsStore s
  reachable-IsStore s later = Later-IsStore (new_store bimap) s later new_store-IsStore
