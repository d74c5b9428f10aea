-- ===== src/Mangle/Bytes.antt =====
-- Texts as their UTF-8 bytes, and what string.rs asks of the standard library about them.
use mathlib.Core.List.{reverse, reverse-cons}
use nitrate.Prelude.{
  ℕ, zero, suc, ◌≡◌, refl, Bool, true, false, ◌&&◌, ◌||◌, not, Option, none, some, List, [], ◌∷◌,
  ◌++◌, ltb, leb, ◌==◌, if◌then◌else◌, length, length-append, all, and_true, arith,
}
use nitrate.Prelude.Slices.{take, drop, take-append, drop-append}

abbrev pub Str : Type 0
Str = List ℕ

infixl 10 ◌>>=◌
abbrev pub ◌>>=◌ {ℓ κ} : {A : Type ℓ} {B : Type κ} → Option A → (A → Option B) → Option B
none >>= f = none
some a >>= f = f a

abbrev pub is_ascii_digit : ℕ → Bool
is_ascii_digit c = leb b'0' c && leb c b'9'

abbrev pub is_ascii_alphabetic : ℕ → Bool
is_ascii_alphabetic c = (leb b'A' c && leb c b'Z') || (leb b'a' c && leb c b'z')

abbrev pub is_word : ℕ → Bool
is_word c = is_ascii_alphabetic c || is_ascii_digit c || c == b'_'

-- The bytes that follow the first one of a character, and the range of the second.
unfoldable pub lead : ℕ → Option (ℕ × ℕ × ℕ)
lead b =
    if ltb b 128
    then some (0, 128, 191)
    else if ltb b 194
    then none
    else if ltb b 224
    then some (1, 128, 191)
    else if b == 224
    then some (2, 160, 191)
    else if b == 237
    then some (2, 128, 159)
    else if ltb b 240
    then some (2, 128, 191)
    else if b == 240
    then some (3, 144, 191)
    else if ltb b 244
    then some (3, 128, 191)
    else if b == 244
    then some (3, 128, 143)
    else none

-- The bytes still to come in a character, and the range of the next one.
unfoldable pub utf8_from : ℕ → ℕ → ℕ → Str → Bool
unfolding lead
utf8_from zero lo hi [] = true
utf8_from (suc n) lo hi [] = false
utf8_from zero lo hi (b ∷ s) = elim (lead b) [
  | none ↦ false
  | some (n, low, high) ↦ utf8_from n low high s
]
utf8_from (suc n) lo hi (b ∷ s) = let rest = utf8_from n 128 191 s in leb lo b && leb b hi && rest

unfoldable pub is_utf8 : Str → Bool
unfolding utf8_from
is_utf8 s = utf8_from 0 128 191 s

-- `std::str::from_utf8`.
unfoldable pub from_utf8 : Str → Option Str
unfolding is_utf8
from_utf8 s = if is_utf8 s then some s else none

-- The bytes before the first one that passes a test, and those from it on.
unfoldable pub split_at_first : (ℕ → Bool) → Str → Option (Str × Str)
split_at_first p [] = none
split_at_first p (c ∷ s) =
    let later = split_at_first p s >>= λ (before, rest). some (c ∷ before, rest) in
    if p c then some ([], c ∷ s) else later

-- `&input[..n]` and `&input[n..]` behind the test of the length.
unfoldable pub split_exact : ℕ → Str → Option (Str × Str)
split_exact n s = if ltb (length s) n then none else some (take n s, drop n s)

pub split_at_first-append :
    (p : ℕ → Bool) (xs : Str) (c : ℕ) (rest : Str)
    → all (λ x. not (p x)) xs ≡ true
    → p c ≡ true
    → split_at_first p (xs ++ c ∷ rest) ≡ some (xs, c ∷ rest)
unfolding split_at_first
split_at_first-append p [] c rest h e = rw e refl
split_at_first-append p (x ∷ xs) c rest h e = ground (arith, split_at_first-append p xs c rest)

pub split_exact-append : (xs ys : Str) → split_exact (length xs) (xs ++ ys) ≡ some (xs, ys)
unfolding split_exact
split_exact-append xs ys =
    let long : ltb (length (xs ++ ys)) (length xs) ≡ false = ground (arith, length-append xs ys) in
    rw (long, take-append xs ys, drop-append xs ys) refl

lead-ascii : (c : ℕ) → ltb c 128 ≡ true → lead c ≡ some (0, 128, 191)
unfolding lead
lead-ascii c h = rw h refl

-- ASCII is UTF-8.
pub ascii-is_utf8 : (s : Str) → all (λ c. ltb c 128) s ≡ true → is_utf8 s ≡ true
unfolding is_utf8 utf8_from
ascii-is_utf8 [] h = refl
ascii-is_utf8 (c ∷ s) h =
    let (low, rest) = and_true (ltb c 128) (all (λ c. ltb c 128) s) h in
    ground (arith, lead-ascii c low, ascii-is_utf8 s rest)

pub all-append :
    (p : ℕ → Bool) (xs ys : Str) → all p xs ≡ true → all p ys ≡ true → all p (xs ++ ys) ≡ true
all-append p [] ys h k = k
all-append p (x ∷ xs) ys h k = ground (arith, all-append p xs ys)

pub all-reverse : (p : ℕ → Bool) (xs : Str) → all p xs ≡ true → all p (reverse xs) ≡ true
all-reverse p [] h = refl
all-reverse p (x ∷ xs) h =
    let (here, there) = and_true (p x) (all p xs) h in
    rw (reverse-cons x xs)
      (all-append p (reverse xs) (x ∷ []) (all-reverse p xs there) (ground (arith, here)))
