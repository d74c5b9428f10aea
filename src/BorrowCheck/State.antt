-- ===== src/BorrowCheck/State.antt =====
-- The states of check.rs: borrow records, the data flow state at a point, and the checker's own
-- state, with the operations on them that read no statement.
pub mod Holders
pub mod Reported
use nitrate.Prelude.{
  ℕ, Bool, true, false, not, ◌&&◌, ◌||◌, String, List, [], ◌∷◌, ◌++◌, Option, none, some, get_or,
  set, retain, find?, if◌then◌else◌,
}
use nitrate.Prelude.Text.{print_usize}
use nitrate.Prelude.Classes.{contains, string_eq}
use nitrate.Mir.Place.{Place, LocalId, local, place_eq, place_has_eq}
use nitrate.Mir.Body.{BorrowKind}
use nitrate.BorrowCheck.Function.{FunctionData, idx_of}
use nitrate.BorrowCheck.Places.{root_place, is_prefix, init_chain}
use nitrate.BorrowCheck.BitSet.{BitSet, contains as holds_local}
use nitrate.BorrowCheck.Error.{BorrowError, display, ◌<>◌}

pub record Location : Type 0 where
  pub block : ℕ
  pub stmt : ℕ

pub record BorrowRecord : Type 0 where
  pub idx : ℕ
  pub kind : BorrowKind
  pub source : Place
  pub holders : List Place
  pub two_phase : Bool
  pub activated : Bool

unfoldable pub kind_str : BorrowKind → String
kind_str BorrowKind.shared = "shared"
kind_str BorrowKind.mutable = "mutable"

unfoldable pub is_mutable : BorrowKind → Bool
is_mutable BorrowKind.shared = false
is_mutable BorrowKind.mutable = true

-- `moved` and `uninit` are sets.
pub record State : Type 0 where
  pub borrows : List BorrowRecord
  pub moved : List Place
  pub uninit : List Place

abbrev pub default_state : State
default_state = record { borrows = []; moved = []; uninit = [] }

-- The fields of `BorrowChecker` that change. The last of `worklist` in the code, which is popped
-- first, is the first here.
pub record Checker : Type 0 where
  pub entry_states : List State
  pub worklist : List ℕ
  pub in_worklist : List Bool
  pub next_borrow_idx : ℕ
  pub errors : List BorrowError
  pub reported : List String

-- `format!("{loc:?}|{error}")`
unfoldable pub report_key : Location → BorrowError → String
report_key loc e =
    "Location { block: "
    <> print_usize loc.block
    <> ", stmt: "
    <> print_usize loc.stmt
    <> " }|"
    <> display e

-- The log that the errors go to as well is discarded by `collect_errors`.
unfoldable pub report : BorrowError → Location → Checker → Checker
report e loc c =
    let key = report_key loc e in
    if contains c.reported key
    then c
    else record c { errors = c.errors ++ e ∷ []; reported = c.reported ++ key ∷ [] }

-- A loop over the borrows that reports at most one error for each.
unfoldable pub report_each :
    (BorrowRecord → Option BorrowError) → Location → List BorrowRecord → Checker → Checker
report_each conflict loc [] c = c
report_each conflict loc (br ∷ brs) c =
    report_each conflict loc brs (elim (conflict br) [ some e ↦ report e loc c | none ↦ c ])

unfoldable pub push_worklist : ℕ → Checker → Checker
push_worklist b c =
    if get_or c.in_worklist b false
    then c
    else record c { in_worklist = set c.in_worklist b true; worklist = b ∷ c.worklist }

-- `br.holders.retain(keep)` for every borrow.
unfoldable pub retain_holders : (Place → Bool) → List BorrowRecord → List BorrowRecord
retain_holders keep [] = []
retain_holders keep (br ∷ brs) =
    record br { holders = retain keep br.holders } ∷ retain_holders keep brs

-- `!holders.is_empty()`
abbrev pub nonempty : List Place → Bool
nonempty [] = false
nonempty (h ∷ hs) = true

unfoldable pub is_held : BorrowRecord → Bool
is_held br = nonempty br.holders

unfoldable pub root_is_live : FunctionData → BitSet → Place → Bool
root_is_live f live_after (local id) = holds_local live_after (idx_of f id)
root_is_live f live_after _ = true

unfoldable pub apply_kills : FunctionData → State → BitSet → State
unfolding root_is_live
apply_kills f s live_after = record s {
  borrows =
      retain is_held (retain_holders (λ h. root_is_live f live_after (root_place h)) s.borrows);
}

unfoldable pub kill_holders_overwritten : Place → State → State
kill_holders_overwritten dest s = record s {
  borrows =
      retain is_held (retain_holders (λ h. not (place_eq h dest || is_prefix dest h)) s.borrows);
}

unfoldable pub kill_borrows_at_local : LocalId → State → State
kill_borrows_at_local id s = record s {
  borrows =
      retain (λ br. is_held br && not (place_eq (root_place br.source) (local id)))
        (retain_holders (λ h. not (place_eq (root_place h) (local id))) s.borrows);
}

unfoldable pub find_moved : Place → State → Option Place
find_moved p s = find? (λ m. is_prefix m p) s.moved

unfoldable pub find_uninit : Place → State → Option Place
find_uninit p s = find? (λ anc. contains s.uninit anc) (init_chain p)

-- Nothing at or under the place is left in the set.
unfoldable pub remove_under : Place → List Place → List Place
remove_under p ms = retain (λ m. not (place_eq m p || is_prefix p m)) ms

unfoldable pub mark_initialized : Place → State → State
mark_initialized p s = record s { moved = remove_under p s.moved; uninit = remove_under p s.uninit }

unfoldable pub propagate_to : Place → Place → List BorrowRecord → List BorrowRecord
propagate_to src dest [] = []
propagate_to src dest (br ∷ brs) =
    (if contains br.holders src && not (contains br.holders dest)
      then record br { holders = br.holders ++ dest ∷ [] }
      else br)
    ∷ propagate_to src dest brs

unfoldable pub propagate_holders : Place → Place → State → State
propagate_holders src dest s = record s { borrows = propagate_to src dest s.borrows }
