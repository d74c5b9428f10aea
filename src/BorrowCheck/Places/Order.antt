-- ===== src/BorrowCheck/Places/Order.antt =====
-- The prefix relation of place.rs as an order on places, and the overlap that it gives.
use nitrate.Prelude.{
  ℕ, suc, ◌≤◌, Bool, true, false, ◌||◌, String, ◌≡◌, ◌≢◌, ◌⊎◌, inl, inr, refl, ap, subst, sym,
  arith, Bool-cases,
}
use nitrate.Mir.Place.{
  Place, local, static_, deref, field, index, downcast, place_eq, place_eq_iff, place_has_eq,
}
use nitrate.Prelude.Classes.{beq_self}
use nitrate.BorrowCheck.Places.{is_prefix, overlaps, root_place}

-- `Extends p q`: `q` is `p` with some field, index and downcast projections put in, at its end or
-- under its derefs. So `*x` extends to `*(x.f)`, which is not reached by projecting `*x`.
pub data Extends : Place → Place → Type 0 where
  here : {p : Place} → Extends p p
  through_field : {p b : Place} {n : String} → Extends p b → Extends p (field b n)
  through_index : {p b i : Place} → Extends p b → Extends p (index b i)
  through_downcast : {p b : Place} {n : String} → Extends p b → Extends p (downcast b n)
  through_deref : {p b : Place} → Extends p b → Extends (deref p) (deref b)

pub is_prefix_self : (p : Place) → is_prefix p p ≡ true
unfolding is_prefix
is_prefix_self (local i) = beq_self (local i)
is_prefix_self (static_ s) = beq_self (static_ s)
is_prefix_self (deref p) = rw (beq_self (deref p))
is_prefix_self (field p n) = rw (beq_self (field p n))
is_prefix_self (index p i) = rw (beq_self (index p i))
is_prefix_self (downcast p n) = rw (beq_self (downcast p n))

pub Extends-is_prefix : {p q : Place} → Extends p q → is_prefix p q ≡ true
unfolding is_prefix
Extends-is_prefix {p} here = is_prefix_self p
Extends-is_prefix (through_field e) = rw (Extends-is_prefix e) (ground arith)
Extends-is_prefix (through_index e) = rw (Extends-is_prefix e) (ground arith)
Extends-is_prefix (through_downcast e) = rw (Extends-is_prefix e) (ground arith)
Extends-is_prefix (through_deref e) = rw (Extends-is_prefix e) (ground arith)

-- From an equal place, or else from the place behind a projection.
either_prefix :
    (p q : Place) (b : Bool) → (b ≡ true → Extends p q) → (place_eq p q || b) ≡ true → Extends p q
either_prefix p q b rest h = elim (Bool-cases (place_eq p q)) [
  | inl same ↦ let e = (place_eq_iff p q).0 same in subst (λ x. Extends p x) e here
  | inr other ↦ rest (ground arith)
]

is_prefix-Extends : (p q : Place) → is_prefix p q ≡ true → Extends p q
unfolding is_prefix
is_prefix-Extends p (local i) h = subst (λ x. Extends p x) ((place_eq_iff p (local i)).0 h) here
is_prefix-Extends p (static_ s) h = subst (λ x. Extends p x) ((place_eq_iff p (static_ s)).0 h) here
is_prefix-Extends p (field b n) h =
    either_prefix p (field b n) (is_prefix p b) (λ e. through_field (is_prefix-Extends p b e)) h
is_prefix-Extends p (index b i) h =
    either_prefix p (index b i) (is_prefix p b) (λ e. through_index (is_prefix-Extends p b e)) h
is_prefix-Extends p (downcast b n) h =
    either_prefix p (downcast b n) (is_prefix p b) (λ e. through_downcast (is_prefix-Extends p b e))
      h
is_prefix-Extends (deref p) (deref b) h =
    either_prefix (deref p) (deref b) (is_prefix p b) (λ e. through_deref (is_prefix-Extends p b e))
      h
is_prefix-Extends p (deref b) h = subst (λ x. Extends p x) ((place_eq_iff p (deref b)).0 h) here

Extends-trans : {p q r : Place} → Extends p q → Extends q r → Extends p r
Extends-trans d here = d
Extends-trans d (through_field e) = through_field (Extends-trans d e)
Extends-trans d (through_index e) = through_index (Extends-trans d e)
Extends-trans d (through_downcast e) = through_downcast (Extends-trans d e)
Extends-trans here (through_deref e) = through_deref e
Extends-trans (through_deref d) (through_deref e) = through_deref (Extends-trans d e)

-- The projections on the way from the root.
abbrev pub depth : Place → ℕ
depth (local _) = 0
depth (static_ _) = 0
depth (deref p) = suc (depth p)
depth (field p _) = suc (depth p)
depth (index p _) = suc (depth p)
depth (downcast p _) = suc (depth p)

-- The derefs among them.
abbrev pub deref_depth : Place → ℕ
deref_depth (local _) = 0
deref_depth (static_ _) = 0
deref_depth (deref p) = suc (deref_depth p)
deref_depth (field p _) = deref_depth p
deref_depth (index p _) = deref_depth p
deref_depth (downcast p _) = deref_depth p

pub Extends-depth : {p q : Place} → Extends p q → depth p ≤ depth q
Extends-depth here = omega arith
Extends-depth (through_field e) = omega (arith, Extends-depth e)
Extends-depth (through_index e) = omega (arith, Extends-depth e)
Extends-depth (through_downcast e) = omega (arith, Extends-depth e)
Extends-depth (through_deref e) = omega (arith, Extends-depth e)

Extends-eq : {p q : Place} → Extends p q → depth q ≤ depth p → p ≡ q
Extends-eq here h = refl
Extends-eq (through_field e) h = absurd (omega (arith, Extends-depth e))
Extends-eq (through_index e) h = absurd (omega (arith, Extends-depth e))
Extends-eq (through_downcast e) h = absurd (omega (arith, Extends-depth e))
Extends-eq (through_deref e) h = ap deref (Extends-eq e (omega arith))

Extends-region :
    {p q : Place} → Extends p q → (root_place p ≡ root_place q) × (deref_depth p ≡ deref_depth q)
unfolding root_place
Extends-region here = (refl, refl)
Extends-region (through_field e) = Extends-region e
Extends-region (through_index e) = Extends-region e
Extends-region (through_downcast e) = Extends-region e
Extends-region (through_deref e) = (let (a, b) = Extends-region e in (a, ap suc b))

pub is_prefix_trans :
    (p q r : Place) → is_prefix p q ≡ true → is_prefix q r ≡ true → is_prefix p r ≡ true
is_prefix_trans p q r h k =
    Extends-is_prefix (Extends-trans (is_prefix-Extends p q h) (is_prefix-Extends q r k))

-- `is_prefix` is a partial order on places.
pub is_prefix_order :
    (p q r : Place)
    → (is_prefix p p ≡ true)
      × (is_prefix p q ≡ true → is_prefix q r ≡ true → is_prefix p r ≡ true)
      × (is_prefix p q ≡ true → is_prefix q p ≡ true → p ≡ q)
is_prefix_order p q r = (
  is_prefix_self p,
  is_prefix_trans p q r,
  λ h k. Extends-eq (is_prefix-Extends p q h) (Extends-depth (is_prefix-Extends q p k)),
)

-- Places that overlap have the same root and the same number of derefs among their projections, so
-- that a place and its pointee never overlap.
pub overlaps_region :
    (p q : Place)
    → overlaps p q ≡ true
    → (root_place p ≡ root_place q) × (deref_depth p ≡ deref_depth q)
unfolding overlaps
overlaps_region p q h = elim (Bool-cases (is_prefix p q)) [
  | inl e ↦ Extends-region (is_prefix-Extends p q e)
  | inr e ↦ let (a, b) = Extends-region (is_prefix-Extends q p (ground arith)) in (sym a, sym b)
]

pub overlaps_self : (p : Place) → overlaps p p ≡ true
unfolding overlaps
overlaps_self p = rw (is_prefix_self p)

field_inv : {x p : Place} {b : String} → Extends x (field p b) → (x ≡ field p b) ⊎ Extends x p
field_inv here = inl refl
field_inv (through_field e) = inr e

field_apart : (p : Place) (a b : String) → a ≢ b → is_prefix (field p a) (field p b) ≡ false
field_apart p a b ne = elim (Bool-cases (is_prefix (field p a) (field p b))) [
  | inl e ↦ elim (field_inv (is_prefix-Extends (field p a) (field p b) e)) [
    | inl same ↦ absurd (ne cc)
    | inr below ↦ absurd (omega (arith, Extends-depth below))
  ]
  | inr e ↦ e
]

-- Distinct fields of one place do not overlap, and each overlaps the whole.
pub overlaps_fields :
    (p : Place) (a b : String)
    → a ≢ b
    → (overlaps (field p a) (field p b) ≡ false) × (overlaps p (field p a) ≡ true)
unfolding overlaps
overlaps_fields p a b ne = (
  rw (field_apart p a b ne, field_apart p b a (λ e. ne (sym e))),
  rw (Extends-is_prefix (through_field {n = a} (here {p = p}))),
)
