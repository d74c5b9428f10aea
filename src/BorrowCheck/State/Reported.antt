-- ===== src/BorrowCheck/State/Reported.antt =====
-- Which errors are reported, and what the loops over the borrows report.
use nitrate.Prelude.{
  String, ◌++◌, true, List, [], ◌∷◌, Option, none, some, ◌≡◌, inl, inr, refl, subst, Bool-cases,
  Option-cases,
}
use mathlib.Core.List.{Memᴰ}
use nitrate.Prelude.Classes.{contains, string_eq}
use nitrate.Mir.Place.{place_has_eq}
use nitrate.BorrowCheck.Error.{BorrowError}
use nitrate.BorrowCheck.State.{Checker, Location, BorrowRecord, report, report_key, report_each}

-- Each key is that of the error at its position, at some location.
pub data Keyed : List BorrowError → List String → Type 0 where
  no_keys : Keyed [] []
  a_key :
      {e : BorrowError} {es : List BorrowError} {keys : List String} (loc : Location)
      → Keyed es keys
      → Keyed (e ∷ es) (report_key loc e ∷ keys)

pub Keyed-append :
    {es : List BorrowError} {keys : List String} (e : BorrowError) (loc : Location)
    → Keyed es keys
    → Keyed (es ++ e ∷ []) (keys ++ report_key loc e ∷ [])
Keyed-append e loc no_keys = a_key loc no_keys
Keyed-append e loc (a_key l ks) = a_key l (Keyed-append e loc ks)

-- The errors and the keys they were reported under stand side by side.
abbrev pub IsKeyed : Checker → Type 0
IsKeyed c = Keyed c.errors c.reported

-- The error stands among the errors at the position of the key among the keys.
pub data Logged (k : String) (e : BorrowError) : List BorrowError → List String → Type 0 where
  logged_here :
      {es : List BorrowError} {keys : List String} {k' : String}
      → k' ≡ k
      → Logged k e (e ∷ es) (k' ∷ keys)
  logged_later :
      {x : BorrowError} {es : List BorrowError} {k' : String} {keys : List String}
      → Logged k e es keys
      → Logged k e (x ∷ es) (k' ∷ keys)

-- An error stands among the errors under the key of `e` at `loc`, and that is a key of its own: it is
-- at the same location and has the same text.
abbrev pub Reported : BorrowError → Location → Checker → Type 0
Reported e loc c =
    (e' : BorrowError) × (loc' : Location) × Logged (report_key loc e) e' c.errors c.reported
    × (report_key loc' e' ≡ report_key loc e)

Keyed-finds :
    {es : List BorrowError} {keys : List String} (k : String)
    → Keyed es keys
    → contains keys k ≡ true
    → (e : BorrowError) × (loc : Location) × Logged k e es keys × (report_key loc e ≡ k)
Keyed-finds k no_keys h = absurd (cc h)
Keyed-finds k (a_key {e} {es} {keys} loc ks) h =
    elim (Bool-cases (string_eq.beq (report_key loc e) k)) [
      | inl same ↦
          let is = (string_eq.beq_iff (report_key loc e) k).0 same in (e, loc, logged_here is, is)
      | inr other ↦
          let (e', loc', there, is) = Keyed-finds k ks (rw other at h) in
          (e', loc', logged_later there, is)
    ]

Logged-before :
    {k : String} {e : BorrowError} (x : BorrowError) (k' : String) {es : List BorrowError}
    {keys : List String}
    → Logged k e es keys
    → Logged k e (es ++ x ∷ []) (keys ++ k' ∷ [])
Logged-before x k' (logged_here same) = logged_here same
Logged-before x k' (logged_later later) = logged_later (Logged-before x k' later)

Logged-last :
    (k : String) (e : BorrowError) {es : List BorrowError} {keys : List String}
    → Keyed es keys
    → Logged k e (es ++ e ∷ []) (keys ++ k ∷ [])
Logged-last k e no_keys = logged_here refl
Logged-last k e (a_key loc ks) = logged_later (Logged-last k e ks)

pub report-IsKeyed :
    (e : BorrowError) (loc : Location) (c : Checker) → IsKeyed c → IsKeyed (report e loc c)
unfolding report
report-IsKeyed e loc c k = elim (Bool-cases (contains c.reported (report_key loc e))) [
  | inl known ↦ rw known k
  | inr new ↦ rw new (Keyed-append e loc k)
]

pub report-Reported :
    (e : BorrowError) (loc : Location) (c : Checker) → IsKeyed c → Reported e loc (report e loc c)
unfolding report
report-Reported e loc c k = elim (Bool-cases (contains c.reported (report_key loc e))) [
  | inl known ↦ rw known (Keyed-finds (report_key loc e) k known)
  | inr new ↦ rw new (e, loc, Logged-last (report_key loc e) e k, refl)
]

pub report-keeps_Reported :
    (e e' : BorrowError) (loc loc' : Location) (c : Checker)
    → Reported e loc c
    → Reported e loc (report e' loc' c)
unfolding report
report-keeps_Reported e e' loc loc' c (d, at, there, is) =
    elim (Bool-cases (contains c.reported (report_key loc' e'))) [
      | inl known ↦ rw known (d, at, there, is)
      | inr new ↦ rw new (d, at, Logged-before e' (report_key loc' e') there, is)
    ]

module _ (conflict : BorrowRecord → Option BorrowError) (loc : Location) where
  pub report_each-IsKeyed :
      (brs : List BorrowRecord) (c : Checker) → IsKeyed c → IsKeyed (report_each conflict loc brs c)
  unfolding report_each
  report_each-IsKeyed [] c k = k
  report_each-IsKeyed (br ∷ brs) c k = elim (Option-cases (conflict br)) [
    | inl quiet ↦ rw (quiet, report_each) (report_each-IsKeyed brs c k)
    | inr (e, found) ↦
        rw (found, report_each)
          (report_each-IsKeyed brs (report e loc c) (report-IsKeyed e loc c k))
  ]

  pub report_each-keeps_Reported :
      (e : BorrowError) (loc' : Location) (brs : List BorrowRecord) (c : Checker)
      → Reported e loc' c
      → Reported e loc' (report_each conflict loc brs c)
  unfolding report_each
  report_each-keeps_Reported e loc' [] c h = h
  report_each-keeps_Reported e loc' (br ∷ brs) c h = elim (Option-cases (conflict br)) [
    | inl quiet ↦ rw (quiet, report_each) (report_each-keeps_Reported e loc' brs c h)
    | inr (e₁, found) ↦
        rw (found, report_each)
          (report_each-keeps_Reported e loc' brs (report e₁ loc c)
            (report-keeps_Reported e e₁ loc' loc c h))
  ]

  pub report_each-Reported :
      {br : BorrowRecord} {brs : List BorrowRecord} (e : BorrowError) (c : Checker)
      → IsKeyed c
      → Memᴰ br brs
      → conflict br ≡ some e
      → Reported e loc (report_each conflict loc brs c)
  unfolding report_each
  report_each-Reported {brs = []} e c k nowhere h = elim nowhere [ ]
  report_each-Reported {brs = b ∷ brs} e c k (Memᴰ.head same) h =
      let h' : conflict b ≡ some e = subst (λ x. conflict x ≡ some e) same h in
      rw (h', report_each)
        (report_each-keeps_Reported e loc brs (report e loc c) (report-Reported e loc c k))
  report_each-Reported {brs = b ∷ brs} e c k (Memᴰ.tail later) h =
      elim (Option-cases (conflict b)) [
        | inl quiet ↦ rw (quiet, report_each) (report_each-Reported e c k later h)
        | inr (e₁, found) ↦
            rw (found, report_each)
              (report_each-Reported e (report e₁ loc c) (report-IsKeyed e₁ loc c k) later h)
      ]

  -- A loop that finds no conflict leaves the checker as it was.
  pub report_each_quiet :
      (brs : List BorrowRecord) (c : Checker)
      → ((br : BorrowRecord) → Memᴰ br brs → conflict br ≡ none)
      → report_each conflict loc brs c ≡ c
  unfolding report_each
  report_each_quiet [] c h = refl
  report_each_quiet (br ∷ brs) c h =
      rw (h br (Memᴰ.head refl)) (report_each_quiet brs c (λ b later. h b (Memᴰ.tail later)))
