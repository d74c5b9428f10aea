-- ===== src/Mangle/Decimal.antt =====
-- Decimal numbers: what `format!` prints and `parse::<usize>` reads.
use nitrate.Prelude.{
  ℕ, zero, suc, ◌+◌, ◌-◌, ◌*◌, ◌/◌, ◌%◌, ◌^◌, ◌≤◌, ◌<◌, ◌≡◌, refl, ap, sym, ◌∙◌, true, false, ◌&&◌,
  inl, inr, Option, none, some, [], ◌∷◌, ◌++◌, ltb, ◌==◌, if◌then◌else◌, all, and_true, Bool-cases,
  arith,
}
use nitrate.Mangle.Bytes.{Str, ◌>>=◌, is_ascii_digit, all-append}

-- The fuel is the number itself, which has no more digits than that, and one.
unfoldable pub digits_from : ℕ → ℕ → Str
digits_from zero n = (b'0' + n) ∷ []
digits_from (suc fuel) n =
    let more = digits_from fuel (n / 10) ++ (b'0' + n % 10) ∷ [] in
    if ltb n 10 then (b'0' + n) ∷ [] else more

unfoldable pub decimal : ℕ → Str
unfolding digits_from
decimal n = digits_from n n

-- The digits of a number of some bits.
unfoldable pub parse_from : ℕ → ℕ → Str → Option ℕ
parse_from bits acc [] = some acc
parse_from bits acc (c ∷ s) =
    let next = acc * 10 + (c - b'0') in
    let rest = parse_from bits next s in
    if is_ascii_digit c && ltb next (2 ^ bits) then rest else none

-- A sign is allowed, and some digit must follow.
unfoldable pub parse_unsigned : ℕ → Str → Option ℕ
unfolding parse_from
parse_unsigned bits [] = none
parse_unsigned bits (c ∷ []) = parse_from bits 0 (c ∷ [])
parse_unsigned bits (c ∷ d ∷ s) =
    if c == b'+' then parse_from bits 0 (d ∷ s) else parse_from bits 0 (c ∷ d ∷ s)

unfoldable pub parse_usize : Str → Option ℕ
unfolding parse_unsigned
parse_usize s = parse_unsigned 64 s

parse_from-append :
    (bits acc : ℕ) (xs ys : Str)
    → parse_from bits acc (xs ++ ys) ≡ (parse_from bits acc xs >>= λ a. parse_from bits a ys)
unfolding parse_from
parse_from-append bits acc [] ys = refl
parse_from-append bits acc (c ∷ xs) ys =
    let next = acc * 10 + (c - b'0') in
    elim (is_ascii_digit c && ltb next (2 ^ bits))
      as (λ b.
        (if b then parse_from bits next (xs ++ ys) else none)
        ≡ ((if b then parse_from bits next xs else none) >>= λ a. parse_from bits a ys)) [
          | true ↦ parse_from-append bits next xs ys
          | false ↦ refl
        ]

parse_from_single :
    (bits acc d n : ℕ)
    → d < 10
    → acc * 10 + d ≡ n
    → n < 2 ^ bits
    → parse_from bits acc ((b'0' + d) ∷ []) ≡ some n
unfolding parse_from
parse_from_single bits acc d n h e l = ground arith

parse_from-digits_from :
    (bits fuel n : ℕ) → n ≤ fuel → n < 2 ^ bits → parse_from bits 0 (digits_from fuel n) ≡ some n
unfolding digits_from
parse_from-digits_from bits zero n h l = parse_from_single bits 0 n n (omega arith) (omega arith) l
parse_from-digits_from bits (suc fuel) n h l = elim (Bool-cases (ltb n 10)) [
  | inl one ↦ rw one (parse_from_single bits 0 n n (ground arith) (omega arith) l)
  | inr more ↦ rw more (
      rw
        (
          parse_from-append bits 0 (digits_from fuel (n / 10)),
          parse_from-digits_from bits fuel (n / 10) (omega arith) (omega arith),
        )
        (parse_from_single bits (n / 10) (n % 10) n (omega arith) (omega arith) l))
]

digits_from-all : (fuel n : ℕ) → n ≤ fuel → all is_ascii_digit (digits_from fuel n) ≡ true
unfolding digits_from
digits_from-all zero n h = ground arith
digits_from-all (suc fuel) n h = elim (Bool-cases (ltb n 10)) [
  | inl one ↦ rw one (ground arith)
  | inr more ↦ rw more (
      all-append is_ascii_digit (digits_from fuel (n / 10)) _
        (digits_from-all fuel (n / 10) (omega arith)) (ground arith))
]

pub decimal-all : (n : ℕ) → all is_ascii_digit (decimal n) ≡ true
unfolding decimal
decimal-all n = digits_from-all n n (omega arith)

digits_from-cons : (fuel n : ℕ) → (c : ℕ) × (s : Str) × (digits_from fuel n ≡ c ∷ s)
unfolding digits_from
digits_from-cons zero n = (b'0' + n, [], refl)
digits_from-cons (suc fuel) n = elim (Bool-cases (ltb n 10)) [
  | inl one ↦ (b'0' + n, [], rw one refl)
  | inr more ↦
      let (c, s, e) = digits_from-cons fuel (n / 10) in
      (c, s ++ (b'0' + n % 10) ∷ [], rw more (rw e refl))
]

-- A number starts with a digit.
pub decimal-cons : (n : ℕ) → (c : ℕ) × (s : Str) × (decimal n ≡ c ∷ s) × (is_ascii_digit c ≡ true)
unfolding decimal
decimal-cons n =
    let (c, s, e) = digits_from-cons n n in
    let all_digits = digits_from-all n n (omega arith) in
    (c, s, e, (and_true (is_ascii_digit c) (all is_ascii_digit s) (rw e at all_digits)).0)

parse_unsigned-digit :
    (bits c : ℕ) (s : Str)
    → is_ascii_digit c ≡ true
    → parse_unsigned bits (c ∷ s) ≡ parse_from bits 0 (c ∷ s)
unfolding parse_unsigned
parse_unsigned-digit bits c [] h = refl
parse_unsigned-digit bits c (d ∷ s) h = ground arith

-- What was printed is parsed.
pub parse_unsigned-decimal : (bits n : ℕ) → n < 2 ^ bits → parse_unsigned bits (decimal n) ≡ some n
unfolding decimal
parse_unsigned-decimal bits n l =
    let (c, s, e, digit) = decimal-cons n in
    rw e (
      parse_unsigned-digit bits c s digit
      ∙ ap (parse_from bits 0) (sym e)
      ∙ parse_from-digits_from bits n n (omega arith) l)

pub parse_usize-decimal : (n : ℕ) → n < 2 ^ 64 → parse_usize (decimal n) ≡ some n
unfolding parse_usize
parse_usize-decimal n l = parse_unsigned-decimal 64 n l

-- A zero in front changes nothing.
pub parse_usize-zero : (n : ℕ) → n < 2 ^ 64 → parse_usize (b'0' ∷ decimal n) ≡ some n
unfolding parse_usize parse_from decimal
parse_usize-zero n l =
    parse_unsigned-digit 64 b'0' (decimal n) refl ∙ parse_from-digits_from 64 n n (omega arith) l
