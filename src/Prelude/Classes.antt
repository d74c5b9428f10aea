-- ===== src/Prelude/Classes.antt =====
-- Types with a Boolean equality, and the searches through a list that rest on it. A `HashSet` is
-- a list with no order of its own: `insert` and `contains` are all that the code asks of it.
use mathlib.Core.Path.{◌≡◌, refl, sym, ap, ◌∙◌}
use mathlib.Core.Logic.{◌↔◌, inl, inr}
use mathlib.Core.Bool.{Bool, true, false, ◌&&◌, ◌||◌}
use mathlib.Core.List.{List, [], ◌∷◌, ◌++◌}
use native.Mathlib.Omega.{arith}
use Prim.Native.Nat.{ℕ}
use Prim.Native.String.{String}
use text.Mathlib.Text.{◌==◌ as str_eq}
use text.Mathlib.TextEquality.{eq_iff}
use nitrate.Prelude.Tests.{if◌then◌else◌, Bool-cases, Bool-ext, ◌==◌ as nat_beq, ==_iff}
use nitrate.Prelude.Lists.{retain}

pub record Eq {ℓ} (A : Type ℓ) : Type ℓ where
  pub beq : A → A → Bool
  pub beq_iff : (a b : A) → (beq a b ≡ true) ↔ (a ≡ b)

instance abbrev pub nat_eq : Eq ℕ
nat_eq = record { beq = nat_beq; beq_iff = ==_iff }

instance abbrev pub string_eq : Eq String
string_eq = record { beq = str_eq; beq_iff = eq_iff }

module _ {ℓ} {A : Type ℓ} ⦃e : Eq A⦄ where
  abbrev pub contains : List A → A → Bool
  contains [] a = false
  contains (x ∷ xs) a = e.beq x a || contains xs a

  -- `HashSet::insert`
  abbrev pub insert : List A → A → List A
  insert xs a = if contains xs a then xs else xs ++ a ∷ []

  pub beq_self : (a : A) → e.beq a a ≡ true
  beq_self a = (e.beq_iff a a).1 refl

  pub beq_comm : (a b : A) → e.beq a b ≡ e.beq b a
  beq_comm a b =
      Bool-ext _ _ (λ h. (e.beq_iff b a).1 (sym ((e.beq_iff a b).0 h)))
        (λ h. (e.beq_iff a b).1 (sym ((e.beq_iff b a).0 h)))

  pub contains-append :
      (xs ys : List A) (a : A) → contains (xs ++ ys) a ≡ (contains xs a || contains ys a)
  contains-append [] ys a = refl
  contains-append (x ∷ xs) ys a = ground (arith, contains-append xs ys a)

  pub contains-insert :
      (xs : List A) (a b : A) → contains (insert xs a) b ≡ (contains xs b || e.beq a b)
  contains-insert xs a b = elim (Bool-cases (contains xs a)) [
    | inl old ↦ elim (Bool-cases (e.beq a b)) [
      | inl same ↦
          rw old (rw same (let q = (e.beq_iff a b).0 same in ground (arith, ap (contains xs) q)))
      | inr other ↦ rw old (rw other (ground arith))
    ]
    | inr new ↦ rw new (contains-append xs (a ∷ []) b ∙ ground arith)
  ]

  pub contains-retain :
      (p : A → Bool) (xs : List A) (a : A) → contains (retain p xs) a ≡ (contains xs a && p a)
  contains-retain p [] a = refl
  contains-retain p (x ∷ xs) a = elim (Bool-cases (e.beq x a)) [
    | inl same ↦ ground (arith, same, contains-retain p xs a, ap p ((e.beq_iff x a).0 same))
    | inr other ↦ ground (arith, other, contains-retain p xs a)
  ]
