-- ===== src/BorrowCheck/Places/Chain.antt =====
-- `init_chain` and `is_escapable` of place.rs.
use nitrate.Prelude.{
  true, false, String, List, [], ◌∷◌, ◌≡◌, ◌↔◌, ◌⊎◌, inl, inr, refl, subst, arith, Bool-cases,
}
use nitrate.Prelude.Classes.{contains, beq_self}
use nitrate.Mir.Place.{
  Place, LocalId, local, static_, deref, field, index, downcast, place_eq, place_eq_iff,
  place_has_eq,
}
use nitrate.BorrowCheck.Places.{init_chain, is_escapable, root_place, first_projection_is_deref}

-- `Around q p`: `q` is `p` less some field, index and downcast projections, the memory that holds
-- `p`.
pub data Around : Place → Place → Type 0 where
  itself : {p : Place} → Around p p
  of_field : {q b : Place} {n : String} → Around q b → Around q (field b n)
  of_index : {q b i : Place} → Around q b → Around q (index b i)
  of_downcast : {q b : Place} {n : String} → Around q b → Around q (downcast b n)

Around-init_chain : {q p : Place} → Around q p → contains (init_chain p) q ≡ true
unfolding init_chain
Around-init_chain {p = local i} itself = rw (beq_self (local i))
Around-init_chain {p = static_ i} itself = rw (beq_self (static_ i))
Around-init_chain {p = deref b} itself = rw (beq_self (deref b))
Around-init_chain {p = field b n} itself = rw (beq_self (field b n))
Around-init_chain {p = index b i} itself = rw (beq_self (index b i))
Around-init_chain {p = downcast b n} itself = rw (beq_self (downcast b n))
Around-init_chain (of_field a) = rw (Around-init_chain a) (ground arith)
Around-init_chain (of_index a) = rw (Around-init_chain a) (ground arith)
Around-init_chain (of_downcast a) = rw (Around-init_chain a) (ground arith)

pointer-init_chain :
    {d p : Place} → Around d p → (q : Place) → d ≡ deref q → contains (init_chain p) q ≡ true
unfolding init_chain
pointer-init_chain itself q e = rw e (rw (beq_self q) (ground arith))
pointer-init_chain (of_field a) q e = rw (pointer-init_chain a q e) (ground arith)
pointer-init_chain (of_index a) q e = rw (pointer-init_chain a q e) (ground arith)
pointer-init_chain (of_downcast a) q e = rw (pointer-init_chain a q e) (ground arith)

abbrev pub Needed : Place → Place → Type 0
Needed q p = Around q p ⊎ Around (deref q) p

cons_cases :
    (x q : Place) (xs : List Place) → contains (x ∷ xs) q ≡ true → (x ≡ q) ⊎ (contains xs q ≡ true)
cons_cases x q xs h = elim (Bool-cases (place_eq x q)) [
  | inl same ↦ inl ((place_eq_iff x q).0 same)
  | inr other ↦ inr (ground arith)
]

module _ (b p : Place) (wider : (x : Place) → Around x b → Around x p) where
  Needed-map : {q : Place} → Needed q b → Needed q p
  Needed-map {q} (inl a) = inl (wider q a)
  Needed-map {q} (inr a) = inr (wider (deref q) a)

-- The first of the chain is the place itself, and the rest is the chain of its base.
chain_cases :
    (p q b : Place) (xs : List Place)
    → (contains xs q ≡ true → Needed q b)
    → ((x : Place) → Around x b → Around x p)
    → contains (p ∷ xs) q ≡ true
    → Needed q p
chain_cases p q b xs rest wider h = elim (cons_cases p q xs h) [
  | inl same ↦ inl (subst (λ x. Around x p) same itself)
  | inr later ↦ Needed-map b p wider (rest later)
]

init_chain-Needed : (p q : Place) → contains (init_chain p) q ≡ true → Needed q p
unfolding init_chain
init_chain-Needed (field b n) q h =
    chain_cases (field b n) q b (init_chain b) (init_chain-Needed b q) (λ x a. of_field a) h
init_chain-Needed (index b i) q h =
    chain_cases (index b i) q b (init_chain b) (init_chain-Needed b q) (λ x a. of_index a) h
init_chain-Needed (downcast b n) q h =
    chain_cases (downcast b n) q b (init_chain b) (init_chain-Needed b q) (λ x a. of_downcast a) h
init_chain-Needed (deref b) q h = elim (cons_cases (deref b) q (b ∷ []) h) [
  | inl same ↦ inl (subst (λ x. Around x (deref b)) same itself)
  | inr later ↦ elim (cons_cases b q [] later) [
    | inl same ↦ inr (subst (λ x. Around (deref x) (deref b)) same itself)
    | inr never ↦ cc
  ]
]
init_chain-Needed (local i) q h = elim (cons_cases (local i) q [] h) [
  | inl same ↦ inl (subst (λ x. Around x (local i)) same itself)
  | inr never ↦ cc
]
init_chain-Needed (static_ s) q h = elim (cons_cases (static_ s) q [] h) [
  | inl same ↦ inl (subst (λ x. Around x (static_ s)) same itself)
  | inr never ↦ cc
]

-- The chain of `p` holds exactly the places around `p` in its memory region, and the reference
-- that points to that region if there is one.
pub init_chain_iff : (p q : Place) → (contains (init_chain p) q ≡ true) ↔ Needed q p
init_chain_iff p q = (
  init_chain-Needed p q,
  λ n. elim n [ inl a ↦ Around-init_chain a | inr a ↦ pointer-init_chain a q refl ],
)

-- The derefs and the fields are told apart by the outermost projection alone: a field of what a
-- local reference points to is taken for memory of this frame, and what a field of a local
-- points to is not.
pub is_escapable_outermost :
    (p : Place) (x : LocalId) (n : String)
    → root_place p ≡ local x
    → (is_escapable (field (deref p) n) ≡ false) × (is_escapable (deref (field p n)) ≡ true)
unfolding is_escapable first_projection_is_deref root_place
is_escapable_outermost p x n h = (rw h, refl)
