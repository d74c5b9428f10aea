-- ===== src/Prelude/Maps.antt =====
-- Maps as association lists that hold a key at most once: `BTreeMap` and `HashMap`, where the
-- order of the entries is not read.
use mathlib.Core.Path.{◌≡◌, refl}
use mathlib.Core.Logic.{inl, inr}
use mathlib.Core.Bool.{Bool, true, false}
use mathlib.Core.Option.{Option, none, some}
use mathlib.Core.List.{List, [], ◌∷◌}
use native.Mathlib.Omega.{arith}
use nitrate.Prelude.Tests.{if◌then◌else◌, Bool-cases}
use nitrate.Prelude.Classes.{Eq}

module _ {ℓ} {K V : Type ℓ} ⦃e : Eq K⦄ where
  -- `get` and `contains_key`.
  abbrev pub lookup : K → List (K × V) → Option V
  lookup k [] = none
  lookup k ((j, v) ∷ m) = let rest = lookup k m in if e.beq j k then some v else rest

  abbrev pub contains_key : K → List (K × V) → Bool
  contains_key k m = elim (lookup k m) [ none ↦ false | some v ↦ true ]

  abbrev pub remove : K → List (K × V) → List (K × V)
  remove k [] = []
  remove k ((j, v) ∷ m) = let rest = remove k m in if e.beq j k then m else (j, v) ∷ rest

  -- `insert` replaces what stood under the key.
  abbrev pub put : K → V → List (K × V) → List (K × V)
  put k v m = (k, v) ∷ remove k m

  pub remove_absent : (k : K) (m : List (K × V)) → lookup k m ≡ none → remove k m ≡ m
  remove_absent k [] h = refl
  remove_absent k ((j, v) ∷ m) h = ground (arith, remove_absent k m)

  -- Another key is looked up as before.
  pub lookup-remove_ne :
      (k j : K) (m : List (K × V)) → e.beq k j ≡ false → lookup j (remove k m) ≡ lookup j m
  lookup-remove_ne k j [] h = refl
  lookup-remove_ne k j ((i, v) ∷ m) h = elim (Bool-cases (e.beq i k)) [
    | inl same ↦ ground (arith, same, h, (e.beq_iff i k).0 same)
    | inr other ↦ ground (arith, other, lookup-remove_ne k j m h)
  ]
