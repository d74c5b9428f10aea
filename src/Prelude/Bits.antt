-- ===== src/Prelude/Bits.antt =====
-- The bits of a machine word, and what `|`, `&`, `!` and `1 << i` do to each of them.
use Prim.Native.Nat.{
  ℕ, zero, suc, ◌+◌, ◌-◌, ◌*◌, ◌/◌, ◌%◌, ◌^◌, ◌≤◌, ◌<◌, min, max, digits, bit_and, bit_or,
  bit_and-bitwise, bit_or-bitwise,
}
use mathlib.Core.Path.{◌≡◌, refl, ◌∙◌, ap}
use mathlib.Core.Logic.{inl, inr}
use mathlib.Core.Bool.{Bool, true, false, not, ◌&&◌, ◌||◌}
use native.Mathlib.Nat.{pow-suc, one-le-pow}
use native.Mathlib.Omega.{arith}
use nitrate.Prelude.Tests.{◌==◌, ==_iff, ==_refl, Bool-cases}

-- Bit `k` of `w`.
pub bit : ℕ → ℕ → Bool
bit w zero = w % 2 == 1
bit w (suc k) = bit (w / 2) k

-- `!w` on `n` bits.
unfoldable pub complement : ℕ → ℕ → ℕ
complement n w = 2 ^ n - 1 - w

pub bit-zero : (k : ℕ) → bit 0 k ≡ false
unfolding bit
bit-zero zero = refl
bit-zero (suc k) = bit-zero k

half_of : (q r : ℕ) → r ≤ 1 → (q * 2 + r) / 2 ≡ q
half_of q r h = omega arith

bit-digits-max : (n a b k : ℕ) → a ≤ n → bit (digits (λ y. y) max n a b) k ≡ (bit a k || bit b k)
unfolding bit
bit-digits-max zero zero b k h = ground (arith, bit-zero k)
bit-digits-max zero (suc a) b k h = absurd (omega arith)
bit-digits-max (suc n) zero b k h = ground (arith, bit-zero k)
bit-digits-max (suc n) (suc a) b zero h = ground arith
bit-digits-max (suc n) (suc a) b (suc k) h =
    rw (half_of (digits (λ y. y) max n (suc a / 2) (b / 2)) (max (suc a % 2) (b % 2)) (omega arith))
      (bit-digits-max n (suc a / 2) (b / 2) k (omega arith))

bit-digits-min : (n a b k : ℕ) → a ≤ n → bit (digits (λ y. zero) min n a b) k ≡ (bit a k && bit b k)
unfolding bit
bit-digits-min zero zero b k h = ground (arith, bit-zero k)
bit-digits-min zero (suc a) b k h = absurd (omega arith)
bit-digits-min (suc n) zero b k h = ground (arith, bit-zero k)
bit-digits-min (suc n) (suc a) b zero h = ground arith
bit-digits-min (suc n) (suc a) b (suc k) h =
    rw
      (half_of (digits (λ y. zero) min n (suc a / 2) (b / 2)) (min (suc a % 2) (b % 2))
        (omega arith))
      (bit-digits-min n (suc a / 2) (b / 2) k (omega arith))

pub bit-bit_or : (a b k : ℕ) → bit (bit_or a b) k ≡ (bit a k || bit b k)
bit-bit_or a b k = rw bit_or-bitwise (bit-digits-max a a b k (omega arith))

pub bit-bit_and : (a b k : ℕ) → bit (bit_and a b) k ≡ (bit a k && bit b k)
bit-bit_and a b k = rw bit_and-bitwise (bit-digits-min a a b k (omega arith))

-- `1 << i` has the one bit `i`.
pub bit-pow : (i k : ℕ) → bit (2 ^ i) k ≡ (i == k)
unfolding bit
bit-pow zero zero = refl
bit-pow zero (suc k) = bit-zero k ∙ ground arith
bit-pow (suc i) zero = ground (arith, pow-suc 2 i)
bit-pow (suc i) (suc k) =
    let e : 2 ^ suc i / 2 ≡ 2 ^ i = omega (arith, pow-suc 2 i) in rw e (bit-pow i k ∙ ground arith)

pub bit-complement : (n w k : ℕ) → w < 2 ^ n → k < n → bit (complement n w) k ≡ not (bit w k)
unfolding bit complement
bit-complement zero w k h l = elim l [ ]
bit-complement (suc n) w zero h l = ground (arith, pow-suc 2 n)
bit-complement (suc n) w (suc k) h l =
    let e : (2 ^ suc n - 1 - w) / 2 ≡ 2 ^ n - 1 - w / 2 = omega (arith, pow-suc 2 n) in
    rw e (bit-complement n (w / 2) k (omega (arith, pow-suc 2 n)) (omega arith))

pub complement-lt : (n w : ℕ) → complement n w < 2 ^ n
unfolding complement
complement-lt n w = omega (arith, one-le-pow n 2)

-- A word with no bit set is zero; with one set, it is not.
pub eq-zero_of_bits : (n w : ℕ) → w < 2 ^ n → ((k : ℕ) → bit w k ≡ false) → w ≡ 0
unfolding bit
eq-zero_of_bits zero w h f = omega arith
eq-zero_of_bits (suc n) w h f =
    let half : w / 2 ≡ 0 =
      eq-zero_of_bits n (w / 2) (omega (arith, pow-suc 2 n)) (λ k. f (suc k)) in
    ground (arith, f 0)

pub lt-two_pow : (n : ℕ) → n < 2 ^ n
lt-two_pow zero = omega arith
lt-two_pow (suc n) = omega (arith, pow-suc 2 n, lt-two_pow n)

digits-max-lt : (w n a b : ℕ) → a ≤ n → a < 2 ^ w → b < 2 ^ w → digits (λ y. y) max n a b < 2 ^ w
digits-max-lt w zero a b h p q = q
digits-max-lt w (suc n) zero b h p q = q
digits-max-lt zero (suc n) (suc a) b h p q = absurd (omega arith)
digits-max-lt (suc w) (suc n) (suc a) b h p q = omega (
  arith,
  pow-suc 2 w,
  digits-max-lt w n (suc a / 2) (b / 2) (omega arith) (omega (arith, pow-suc 2 w))
      (omega (arith, pow-suc 2 w)),
)

pub bit_or-lt : (w a b : ℕ) → a < 2 ^ w → b < 2 ^ w → bit_or a b < 2 ^ w
bit_or-lt w a b p q = rw bit_or-bitwise (digits-max-lt w a a b (omega arith) p q)

digits-min-le : (n a b : ℕ) → a ≤ n → digits (λ y. zero) min n a b ≤ a
digits-min-le zero a b h = omega arith
digits-min-le (suc n) zero b h = omega arith
digits-min-le (suc n) (suc a) b h = omega (arith, digits-min-le n (suc a / 2) (b / 2) (omega arith))

pub bit_and-le : (a b : ℕ) → bit_and a b ≤ a
bit_and-le a b = rw bit_and-bitwise (digits-min-le a a b (omega arith))

masked_bits : (w k : ℕ) → bit w k ≡ false → (j : ℕ) → bit (bit_and w (2 ^ k)) j ≡ false
masked_bits w k h j = rw bit-bit_and (
    rw bit-pow (elim (Bool-cases (k == j)) [
      | inl e ↦ let q = (==_iff k j).0 e in rw (← q) (rw h refl)
      | inr e ↦ rw e (ground arith)
    ]))

-- `w & (1 << k) != 0` tests bit `k`.
pub mask_test : (w k : ℕ) → (bit_and w (2 ^ k) == 0) ≡ not (bit w k)
mask_test w k = elim (Bool-cases (bit w k)) [
  | inl set ↦
      let e : bit (bit_and w (2 ^ k)) k ≡ true = rw bit-bit_and (rw (set, bit-pow) (==_refl k)) in
      ground (arith, ap (λ v. bit v k) {x = bit_and w (2 ^ k)} {y = 0}, bit-zero k)
  | inr clear ↦ rw (
    clear,
    eq-zero_of_bits w (bit_and w (2 ^ k)) (omega (arith, bit_and-le w (2 ^ k), lt-two_pow w))
        (masked_bits w k clear),
  )
]

-- Every bit of the one word is set in the other.
abbrev pub WordLe : ℕ → ℕ → Type 0
WordLe a b = (k : ℕ) → bit a k ≡ true → bit b k ≡ true

WordLe-le_below : (n a b : ℕ) → a < 2 ^ n → WordLe a b → a ≤ b
unfolding bit
WordLe-le_below zero a b h le = omega arith
WordLe-le_below (suc n) a b h le =
    let halves = WordLe-le_below n (a / 2) (b / 2) (omega (arith, pow-suc 2 n)) (λ k. le (suc k)) in
    ground (arith, le 0, halves)

pub WordLe-le : (a b : ℕ) → WordLe a b → a ≤ b
WordLe-le a b le = WordLe-le_below a a b (lt-two_pow a) le
