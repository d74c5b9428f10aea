-- ===== src/Diagnosis/FileId/Stays.antt =====
-- What a call gives, and that it stays given.
use nitrate.Prelude.{
  ℕ, ◌+◌, ◌^◌, ◌<◌, ◌≡◌, ◌≢◌, ◌⊎◌, refl, sym, ap, subst, ◌∙◌, inl, inr, none, some, Option-cases,
  arith,
}
use nitrate.Diagnosis.FileId.{
  BiMap, FileIdStore, interned, no_id, new_store, lookup_path, quick_check, insert_locked,
  insert_after_check, get_or_create, Step, Later, locked, now, step,
}
use nitrate.Diagnosis.FileId.Invariant.{
  IsStore, insert_locked_cases, insert_locked_known, Step-IsStore, Later-IsStore, reachable-IsStore,
}

module _ {P M : Type 0} (bimap : BiMap P M) where
  -- The check without the write lock changes nothing of what a call gives.
  pub get_or_create-insert_locked :
      (s : FileIdStore M) (path : P) → get_or_create bimap s path ≡ insert_locked bimap s path
  unfolding get_or_create quick_check insert_after_check
  get_or_create-insert_locked s path = elim (Option-cases (bimap.get_by_right s.map path)) [
    | inl fresh ↦ ap (insert_after_check bimap s path) fresh
    | inr (id, e) ↦
        ap (insert_after_check bimap s path) e ∙ sym (insert_locked_known bimap s path id e)
  ]

  Step-lookup_path :
      (s t : FileIdStore M) (id : ℕ) (p : P)
      → Step bimap s t
      → IsStore bimap s
      → lookup_path bimap s id ≡ some p
      → lookup_path bimap t id ≡ some p
  unfolding lookup_path
  Step-lookup_path s t id p change i h = elim change [
    | locked s t path r q ↦ elim (insert_locked_cases bimap s path i) [
      | inl (_, _, e) ↦ rw (sym (ap (λ x. x.1) (sym e ∙ q))) h
      | inr (inl (_, _, e)) ↦ rw (sym (ap (λ x. x.1) (sym e ∙ q))) h
      | inr (inr (fresh, l, e)) ↦
          let (pos, within) = i.present id p h in
          let apart : id ≢ i.count + 1 = λ same. absurd (omega (arith, within, same)) in
          rw (sym (ap (λ x. x.1) (sym e ∙ q)))
            (bimap.insert_other s.map (i.count + 1) id path apart fresh ∙ h)
    ]
  ]

  Later-lookup_path :
      (s t : FileIdStore M) (id : ℕ) (p : P)
      → Later bimap s t
      → IsStore bimap s
      → lookup_path bimap s id ≡ some p
      → lookup_path bimap t id ≡ some p
  Later-lookup_path s t id p later i h = elim later as (λ u _. lookup_path bimap u id ≡ some p) [
    | now ↦ h
    | step (before → ih) change ↦
        Step-lookup_path _ _ id p change (Later-IsStore bimap s _ before i) ih
  ]

  -- The store has the id that a call gave.
  insert_locked-lookup_path :
      (s : FileIdStore M) (path : P) (id : ℕ)
      → IsStore bimap s
      → (insert_locked bimap s path).0 ≡ interned id
      → lookup_path bimap (insert_locked bimap s path).1 id ≡ some path
  unfolding lookup_path
  insert_locked-lookup_path s path id i h = elim (insert_locked_cases bimap s path i) [
    | inl (k, known, e) ↦
        let same : k ≡ id = cc (ap (λ x. x.0) e, h) in
        rw e (rw (sym same) (bimap.right_left s.map k path known))
    | inr (inl (_, _, e)) ↦ absurd (cc (ap (λ x. x.0) e, h))
    | inr (inr (fresh, l, e)) ↦
        let same : i.count + 1 ≡ id = cc (ap (λ x. x.0) e, h) in
        rw e (rw (sym same) (bimap.insert_same s.map (i.count + 1) path))
  ]

  -- An id that a call gives for a path, on a store that calls of threads led to, has that path at any
  -- later time, and every later call for the path gives the id again and changes nothing.
  pub get_or_create_stays :
      (s t : FileIdStore M) (path : P) (id : ℕ)
      → Later bimap (new_store bimap) s
      → (get_or_create bimap s path).0 ≡ interned id
      → Later bimap (get_or_create bimap s path).1 t
      → (lookup_path bimap t id ≡ some path) × (get_or_create bimap t path ≡ (interned id, t))
  unfolding lookup_path
  get_or_create_stays s t path id before h later =
      let i = reachable-IsStore bimap s before in
      let same = get_or_create-insert_locked s path in
      let given = subst (λ c. c.0 ≡ interned id) same h in
      let after = subst (λ c. Later bimap c.1 t) same later in
      let change =
        locked s (insert_locked bimap s path).1 path (insert_locked bimap s path).0 refl in
      let stays =
        Later-lookup_path (insert_locked bimap s path).1 t id path after
          (Step-IsStore bimap s _ change i) (insert_locked-lookup_path s path id i given) in
      (
        stays,
        get_or_create-insert_locked t path
            ∙ insert_locked_known bimap t path id (bimap.left_right t.map id path stays),
      )

  -- On a store that calls of threads led to, a call does not panic: it gives an id of 16 bits that is
  -- not zero, or none, where the path is new and every such id has a path.
  pub get_or_create_total :
      (s : FileIdStore M) (path : P)
      → Later bimap (new_store bimap) s
      → ((id : ℕ) × ((get_or_create bimap s path).0 ≡ interned id) × (0 < id) × (id < 2 ^ 16))
        ⊎ ((get_or_create bimap s path ≡ (no_id, s))
            × (quick_check bimap s path ≡ none)
            × ((id : ℕ) → 0 < id → id < 2 ^ 16 → (p : P) × (lookup_path bimap s id ≡ some p)))
  unfolding quick_check lookup_path
  get_or_create_total s path before =
      let i = reachable-IsStore bimap s before in
      let same = get_or_create-insert_locked s path in
      elim (insert_locked_cases bimap s path i) [
        | inl (id, known, e) ↦
            let (pos, within) = i.present id path (bimap.right_left s.map id path known) in
            inl (id, ap (λ c. c.0) (same ∙ e), pos, omega (arith, i.within, within))
        | inr (inl (fresh, all_taken, e)) ↦
            inr (same ∙ e, fresh, λ id pos h. i.filled id pos (omega (arith, all_taken)))
        | inr (inr (fresh, l, e)) ↦
            inl (i.count + 1, ap (λ c. c.0) (same ∙ e), omega arith, omega (arith, l))
      ]
