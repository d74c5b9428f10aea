-- ===== src/Mangle/Path/RoundTrip.antt =====
-- Mangled paths are read back, with what follows them.
use mathlib.Core.List.{append_assoc, append-nil}
use nitrate.Prelude.{
  ℕ, suc, ◌*◌, ◌^◌, ◌<◌, ◌≡◌, refl, sym, ap, ◌∙◌, inl, inr, true, false, ◌&&◌, Option, some, List,
  [], ◌∷◌, ◌++◌, ltb, ◌==◌, length, all, Bool-cases, arith,
}
use nitrate.Mangle.Bytes.{Str, is_utf8}
use nitrate.Mangle.Segment.{ok, plain_segment, mangle_segment, demangle_segment}
use nitrate.Mangle.Segment.Plain.{read_prefix-decimal}
use nitrate.Mangle.Segment.RoundTrip.{demangle_segment-mangle_segment}
use nitrate.Mangle.Path.{
  prepend, split, join, exceeds_capacity, mangle_segments, mangle_string, demangle_segments,
  demangle_string, mangle_module, demangle_module,
}

join-prepend : (c : ℕ) (s : Str) (ss : List Str) → join (prepend c (s ∷ ss)) ≡ c ∷ join (s ∷ ss)
unfolding join
join-prepend c s [] = refl
join-prepend c s (t ∷ ss) = refl

split-cons : (s : Str) → (x : Str) × (xs : List Str) × (split s ≡ x ∷ xs)
unfolding split
split-cons [] = ([], [], refl)
split-cons (c ∷ []) = (c ∷ [], [], refl)
split-cons (c ∷ d ∷ s) = elim (Bool-cases (c == b':' && d == b':')) [
  | inl sep ↦ ([], split s, rw sep refl)
  | inr other ↦ let (x, xs, e) = split-cons (d ∷ s) in (c ∷ x, xs, rw (other, e) refl)
]

join-empty : (s : Str) (ss : List Str) → join ([] ∷ s ∷ ss) ≡ b':' ∷ b':' ∷ join (s ∷ ss)
unfolding join
join-empty s ss = refl

-- What a path is split into joins to the path.
pub join-split : (s : Str) → join (split s) ≡ s
unfolding join split
join-split [] = refl
join-split (c ∷ []) = refl
join-split (c ∷ d ∷ s) = elim (Bool-cases (c == b':' && d == b':')) [
  | inl sep ↦
      let (x, xs, e) = split-cons s in
      let first : c ≡ b':' = ground arith in
      let second : d ≡ b':' = ground arith in
      let whole : join (x ∷ xs) ≡ s = ap join (sym e) ∙ join-split s in
      rw (sep, e, join-empty x xs, whole) (cc (first, second))
  | inr other ↦
      let (x, xs, e) = split-cons (d ∷ s) in
      let whole : join (x ∷ xs) ≡ d ∷ s = ap join (sym e) ∙ join-split (d ∷ s) in
      rw (other, e, join-prepend c x xs, whole) refl
]

within_capacity : (n : ℕ) → n * 24 < 2 ^ 63 → exceeds_capacity n ≡ false
within_capacity n h = ground arith

module _ (deflate : Str → Str) (inflate : Str → Option Str) where
  -- A segment that mangling keeps: text that is not empty, encodings that fit into memory, and
  -- deflated bytes that do not begin with zero.
  pub record IsReadable (s : Str) : Type 0 where
    pub first : ℕ
    pub others : Str
    pub shape : s ≡ first ∷ others
    pub valid : is_utf8 s ≡ true
    pub plain_fits : length (plain_segment s) < 2 ^ 64
    pub mangled_fits : length (mangle_segment deflate inflate s) < 2 ^ 64
    pub lead : ℕ
    pub tail : Str
    pub deflated : deflate (plain_segment s) ≡ lead ∷ tail
    pub lead_pos : 0 < lead
    pub bytes : all (λ x. ltb x 256) (lead ∷ tail) ≡ true

  unfoldable pub AreReadable : List Str → Type 0
  AreReadable [] = Unit
  AreReadable (s ∷ ss) = IsReadable s × AreReadable ss

  readable_shape :
      (f c b : ℕ) (s o rest tail : Str)
      → ((d : Str) → inflate (deflate d) ≡ some d)
      → s ≡ c ∷ o
      → is_utf8 s ≡ true
      → length (plain_segment s) < 2 ^ 64
      → length (mangle_segment deflate inflate s) < 2 ^ 64
      → deflate (plain_segment s) ≡ b ∷ tail
      → 0 < b
      → all (λ x. ltb x 256) (b ∷ tail) ≡ true
      → demangle_segment deflate inflate (suc (suc f)) (mangle_segment deflate inflate s ++ rest)
        ≡ ok s rest
  readable_shape f c b s o rest tail inverse e u l m d p a = rw e (
      demangle_segment-mangle_segment deflate inflate f c b o rest tail inverse (rw e at u)
        (rw e at l) (rw e at m) (rw e at d) p a)

  readable_segment :
      (f : ℕ) (s rest : Str)
      → ((d : Str) → inflate (deflate d) ≡ some d)
      → IsReadable s
      → demangle_segment deflate inflate (suc (suc f)) (mangle_segment deflate inflate s ++ rest)
        ≡ ok s rest
  readable_segment f s rest inverse r =
      readable_shape f r.first r.lead s r.others rest r.tail inverse r.shape r.valid r.plain_fits
        r.mangled_fits r.deflated r.lead_pos r.bytes

  demangle_segments-mangle_segments :
      (f : ℕ) (ss : List Str) (rest : Str)
      → ((d : Str) → inflate (deflate d) ≡ some d)
      → AreReadable ss
      → demangle_segments deflate inflate
          (suc (suc f))
          (length ss)
          (mangle_segments deflate inflate ss ++ rest)
        ≡ ok ss rest
  unfolding AreReadable demangle_segments mangle_segments
  demangle_segments-mangle_segments f [] rest inverse r = refl
  demangle_segments-mangle_segments f (s ∷ ss) rest inverse r = rw append_assoc (
      rw
        (
          readable_segment f s (mangle_segments deflate inflate ss ++ rest) inverse r.0,
          demangle_segments-mangle_segments f ss rest inverse r.1,
        )
        refl)

  -- For a coder that inflates what it deflates, a mangled path of readable segments is read off the
  -- front of any input, and what follows it is left.
  pub demangle_string-mangle_string :
      (f : ℕ) (s rest : Str)
      → ((d : Str) → inflate (deflate d) ≡ some d)
      → AreReadable (split s)
      → length (split s) * 24 < 2 ^ 63
      → demangle_string deflate inflate (suc (suc f)) (mangle_string deflate inflate s ++ rest)
        ≡ ok s rest
  unfolding demangle_string mangle_string
  demangle_string-mangle_string f s rest inverse r l = rw append_assoc (
      rw
        (
          read_prefix-decimal (length (split s)) (mangle_segments deflate inflate (split s) ++ rest)
              (omega arith),
          demangle_segments-mangle_segments f (split s) rest inverse r,
          join-split s,
          within_capacity (length (split s)) l,
        )
        refl)

  -- So is the name of a module.
  pub demangle_module-mangle_module :
      (f : ℕ) (s : Str)
      → ((d : Str) → inflate (deflate d) ≡ some d)
      → AreReadable (split s)
      → length (split s) * 24 < 2 ^ 63
      → demangle_module deflate inflate (suc (suc f)) (mangle_module deflate inflate s) ≡ ok s []
  unfolding demangle_module mangle_module
  demangle_module-mangle_module f s inverse r l =
      rw append-nil at (demangle_string-mangle_string f s [] inverse r l)
