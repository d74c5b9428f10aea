-- ===== src/Layout/Ensures.antt =====
-- Facts on the outcome of a layout, along the ways that layouts are put together.
use nitrate.Prelude.{ℕ, Bool, true, false, none, some, List, if◌then◌else◌, get_elem?}
use nitrate.Layout.{Layout, ok, err, panic, out_of_fuel, ◌>>=◌, find_def}

-- What a layout that is returned satisfies.
abbrev pub Ensures : (ℕ → Type 0) → Layout → Type 0
Ensures P (ok a) = P a
Ensures P (err e) = Unit
Ensures P panic = Unit
Ensures P out_of_fuel = Unit

pub bind-Ensures :
    (P Q : ℕ → Type 0) (l : Layout) (k : ℕ → Layout)
    → Ensures P l
    → ((a : ℕ) → P a → Ensures Q (k a))
    → Ensures Q (l >>= k)
bind-Ensures P Q (ok a) k p h = h a p
bind-Ensures P Q (err e) k p h = tt
bind-Ensures P Q panic k p h = tt
bind-Ensures P Q out_of_fuel k p h = tt

pub if-Ensures :
    (P : ℕ → Type 0) (b : Bool) (x y : Layout)
    → Ensures P x
    → Ensures P y
    → Ensures P (if b then x else y)
if-Ensures P true x y p q = p
if-Ensures P false x y p q = q

pub find_def-Ensures {ℓ} :
    {A : Type ℓ} (P : ℕ → Type 0) (ds : List A) (i : ℕ) (k : A → Layout)
    → ((d : A) → Ensures P (k d))
    → Ensures P (find_def ds i k)
find_def-Ensures P ds i k h =
    elim (get_elem? ds i) as (λ o. Ensures P (elim o [ none ↦ panic | some d ↦ k d ])) [
      | none ↦ tt
      | some d ↦ h d
    ]
