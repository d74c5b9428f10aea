-- ===== src/BorrowCheck/State/Holders.antt =====
-- Which place holds which borrow after a kill and after a copy, and what an assignment initializes.
use nitrate.Prelude.{
  true, ◌≢◌, ◌↔◌, sym, subst, and_true, ℕ, Bool, false, not, ◌&&◌, ◌||◌, List, [], ◌∷◌, ◌++◌,
  retain, any, if◌then◌else◌, ◌==◌, ◌≡◌, inl, inr, refl, ap, ◌∙◌, arith, Bool-cases,
}
use nitrate.Prelude.Classes.{contains, contains-retain, contains-append}
use nitrate.Mir.Place.{
  Place, LocalId, local, static_, deref, field, index, downcast, place_eq, place_eq_iff,
  place_has_eq,
}
use nitrate.BorrowCheck.Function.{FunctionData, idx_of}
use nitrate.BorrowCheck.Places.{root_place, is_prefix}
use nitrate.BorrowCheck.BitSet.{BitSet, contains as holds_local}
use nitrate.BorrowCheck.State.{
  State, BorrowRecord, is_held, nonempty, retain_holders, root_is_live, apply_kills,
  kill_holders_overwritten, remove_under, mark_initialized, propagate_to, propagate_holders,
}

-- The borrow numbered `i` is held by `h`.
unfoldable pub held : ℕ → Place → List BorrowRecord → Bool
held i h brs = any (λ br. br.idx == i && contains br.holders h) brs

nonempty-none : (hs : List Place) (h : Place) → nonempty hs ≡ false → contains hs h ≡ false
nonempty-none [] h e = refl
nonempty-none (x ∷ xs) h e = ground arith

held-retain :
    (keep : Place → Bool) (brs : List BorrowRecord) (i : ℕ) (h : Place)
    → held i h (retain is_held (retain_holders keep brs)) ≡ (held i h brs && keep h)
unfolding held retain_holders is_held
held-retain keep [] i h = refl
held-retain keep (br ∷ brs) i h =
    let kept = contains-retain keep br.holders h in
    let later = held-retain keep brs i h in
    elim (Bool-cases (nonempty (retain keep br.holders))) [
      | inl some_ ↦ rw some_ (ground (arith, kept, later))
      | inr none_ ↦
          rw none_ (ground (arith, kept, later, nonempty-none (retain keep br.holders) h none_))
    ]

module _ (f : FunctionData) (live_after : BitSet) where
  -- The root is no local, or a live one.
  abbrev pub IsLiveRoot : Place → Type 0
  IsLiveRoot h =
      (id : LocalId) → root_place h ≡ local id → holds_local live_after (idx_of f id) ≡ true

  root_is_live_lem :
      (r : Place)
      → (root_is_live f live_after r ≡ true)
        ↔ ((id : LocalId) → r ≡ local id → holds_local live_after (idx_of f id) ≡ true)
  unfolding root_is_live
  root_is_live_lem (local x) = (
    λ h id e.
        let same : x ≡ id = cc e in subst (λ y. holds_local live_after (idx_of f y) ≡ true) same h,
    λ h. h x refl,
  )
  root_is_live_lem (static_ n) = (λ h id e. absurd (cc e), λ h. refl)
  root_is_live_lem (deref b) = (λ h id e. absurd (cc e), λ h. refl)
  root_is_live_lem (field b n) = (λ h id e. absurd (cc e), λ h. refl)
  root_is_live_lem (index b x) = (λ h id e. absurd (cc e), λ h. refl)
  root_is_live_lem (downcast b n) = (λ h id e. absurd (cc e), λ h. refl)

-- Behind the kill of dead holders a place holds a borrow exactly where it held it before and its root
-- is no local or one that is live. Behind an overwrite it does exactly where it held it before and
-- is neither the place that is overwritten nor one that this is a prefix of, in the sense of
-- `is_prefix`.
pub kill-held :
    (f : FunctionData) (s : State) (live_after : BitSet) (dest h : Place) (i : ℕ)
    → ((held i h (apply_kills f s live_after).borrows ≡ true)
        ↔ ((held i h s.borrows ≡ true) × IsLiveRoot f live_after h))
      × ((held i h (kill_holders_overwritten dest s).borrows ≡ true)
          ↔ ((held i h s.borrows ≡ true) × (h ≢ dest) × (is_prefix dest h ≡ false)))
unfolding apply_kills kill_holders_overwritten
kill-held f s live_after dest h i =
    let dead = held-retain (λ p. root_is_live f live_after (root_place p)) s.borrows i h in
    let over = held-retain (λ p. not (place_eq p dest || is_prefix dest p)) s.borrows i h in
    let root = root_is_live_lem f live_after (root_place h) in
    (
      (
        λ k.
            let (was, lives) = and_true (held i h s.borrows) _ (sym dead ∙ k) in
            (was, root.0 lives),
        λ k. dead ∙ rw (k.0, root.1 k.1) refl,
      ),
      (
        λ k.
            let (was, apart) = and_true (held i h s.borrows) _ (sym over ∙ k) in
            (was, λ e. ground (arith, apart, (place_eq_iff h dest).1 e), ground (arith, apart)),
        λ k.
            let other : place_eq h dest ≡ false = elim (Bool-cases (place_eq h dest)) [
              | inl same ↦ absurd (k.1 ((place_eq_iff h dest).0 same))
              | inr other ↦ other
            ] in
            over ∙ rw (k.0, other, k.2) refl,
      ),
    )

contains-add_holder :
    (src dest h : Place) (hs : List Place)
    → contains (if contains hs src && not (contains hs dest) then hs ++ dest ∷ [] else hs) h
      ≡ (contains hs h || (place_eq dest h && contains hs src))
contains-add_holder src dest h hs = elim (Bool-cases (contains hs src)) [
  | inl from ↦ elim (Bool-cases (contains hs dest)) [
    | inl there ↦ elim (Bool-cases (place_eq dest h)) [
      | inl same ↦
          let e = ap (contains hs) ((place_has_eq.beq_iff dest h).0 same) in
          rw (from, there) (ground (arith, from, there, same, e))
      | inr other ↦ rw (from, there) (ground (arith, other))
    ]
    | inr new ↦ rw (from, new) (contains-append hs (dest ∷ []) h ∙ ground (arith, from))
  ]
  | inr apart ↦ rw apart (ground (arith, apart))
]

held-propagate :
    (src dest : Place) (brs : List BorrowRecord) (i : ℕ) (h : Place)
    → held i h (propagate_to src dest brs) ≡ (held i h brs || (place_eq dest h && held i src brs))
unfolding held propagate_to
held-propagate src dest [] i h = ground arith
held-propagate src dest (br ∷ brs) i h =
    let later = held-propagate src dest brs i h in
    let here = contains-add_holder src dest h br.holders in
    elim (Bool-cases (contains br.holders src && not (contains br.holders dest))) [
      | inl adds ↦ let here' = rw adds at here in rw adds (ground (arith, here', later))
      | inr leaves ↦ let here' = rw leaves at here in rw leaves (ground (arith, here', later))
    ]

-- A copy adds the destination to the holders of exactly the borrows that the source holds.
pub propagate_holders-held :
    (src dest h : Place) (s : State) (i : ℕ)
    → held i h (propagate_holders src dest s).borrows
      ≡ (held i h s.borrows || (place_eq dest h && held i src s.borrows))
unfolding propagate_holders
propagate_holders-held src dest h s i = held-propagate src dest s.borrows i h

-- An assignment to a place leaves neither it nor what it is a prefix of moved or uninitialized, and
-- leaves every other place as it was.
pub mark_initialized-contains :
    (p q : Place) (s : State)
    → (contains (mark_initialized p s).moved q
        ≡ (contains s.moved q && not (place_eq q p || is_prefix p q)))
      × (contains (mark_initialized p s).uninit q
          ≡ (contains s.uninit q && not (place_eq q p || is_prefix p q)))
unfolding mark_initialized remove_under
mark_initialized-contains p q s = (
  contains-retain (λ m. not (place_eq m p || is_prefix p m)) s.moved q,
  contains-retain (λ m. not (place_eq m p || is_prefix p m)) s.uninit q,
)
