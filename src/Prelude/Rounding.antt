-- ===== src/Prelude/Rounding.antt =====
-- Rounding up to a multiple.
use Prim.Native.Nat.{ℕ, ◌+◌, ◌-◌, ◌*◌, ◌/◌, ◌%◌, ◌≤◌, ◌<◌}
use mathlib.Core.Path.{◌≡◌}
use native.Mathlib.Nat.{mod-lt, div-add-mod', mul-mod_left}
use native.Mathlib.Omega.{arith}

-- `(n + a - 1) / a * a` is the least multiple of `a` that is not below `n`.
pub round_up-mod : (n a : ℕ) → (n + a - 1) / a * a % a ≡ 0
round_up-mod n a = mul-mod_left ((n + a - 1) / a) a

pub le-round_up : (n a : ℕ) → 0 < a → n ≤ (n + a - 1) / a * a
le-round_up n a h = omega (arith, div-add-mod' (n + a - 1) a, mod-lt (n + a - 1) h)

pub round_up-lt : (n a : ℕ) → 0 < a → (n + a - 1) / a * a < n + a
round_up-lt n a h = omega (arith, div-add-mod' (n + a - 1) a)
