-- ===== src/Diagnosis/FileId.antt =====
-- `FileIdStore` of file_id.rs, over the two-way map of the crate bimap. The store is shared by
-- threads: what a thread does without a lock, under the read lock and under the write lock is one
-- function each. A path can be of any type.
pub mod Invariant
pub mod Stays
use nitrate.Prelude.{
  ℕ, ◌+◌, ◌%◌, ◌^◌, ◌≡◌, ◌≢◌, Bool, true, false, Option, none, some, ◌==◌, if◌then◌else◌,
}

-- `bimap::BiMap`: pairs of a left and a right value, each in one pair at most.
pub record BiMap (P M : Type 0) : Type 0 where
  pub new : M
  pub get_by_left : M → ℕ → Option P
  pub get_by_right : M → P → Option ℕ
  pub insert : ℕ → P → M → M
  pub left_new : (i : ℕ) → get_by_left new i ≡ none
  pub left_right : (m : M) (i : ℕ) (p : P) → get_by_left m i ≡ some p → get_by_right m p ≡ some i
  pub right_left : (m : M) (i : ℕ) (p : P) → get_by_right m p ≡ some i → get_by_left m i ≡ some p
  pub insert_same : (m : M) (i : ℕ) (p : P) → get_by_left (insert i p m) i ≡ some p
  pub insert_other :
      (m : M) (i j : ℕ) (p : P)
      → j ≢ i
      → get_by_right m p ≡ none
      → get_by_left (insert i p m) j ≡ get_by_left m j

-- An id is the number of 16 bits in it.
pub record FileIdStore (M : Type 0) : Type 0 where
  pub map : M
  pub next_id : ℕ
  pub id_space_exhausted : Bool

-- `Option<FileId>`, or a panic.
pub data Interned : Type 0 where
  interned : ℕ → Interned
  no_id panic : Interned

module _ {P M : Type 0} (bimap : BiMap P M) where
  abbrev pub new_store : FileIdStore M
  new_store = record { map = bimap.new; next_id = 1; id_space_exhausted = false }

  unfoldable pub lookup_path : FileIdStore M → ℕ → Option P
  lookup_path s id = bimap.get_by_left s.map id

  -- Step 1, under the read lock.
  unfoldable pub quick_check : FileIdStore M → P → Option ℕ
  quick_check s path = bimap.get_by_right s.map path

  -- Steps 5 to 7.
  unfoldable pub insert_next : FileIdStore M → P → Interned × FileIdStore M
  insert_next s path =
      let new_id = s.next_id in
      let next = (new_id + 1) % 2 ^ 16 in
      if new_id == 0 then (panic, record s { next_id = next }) else (
        interned new_id,
        record {
          map = bimap.insert new_id path s.map;
          next_id = next;
          id_space_exhausted = if new_id == 65535 then true else s.id_space_exhausted;
        },
      )

  -- Steps 3 to 7, under the write lock.
  unfoldable pub insert_unless : FileIdStore M → P → Option ℕ → Interned × FileIdStore M
  unfolding insert_next
  insert_unless s path (some id) = (interned id, s)
  insert_unless s path none = if s.id_space_exhausted then (no_id, s) else insert_next s path

  unfoldable pub insert_locked : FileIdStore M → P → Interned × FileIdStore M
  unfolding insert_unless
  insert_locked s path = insert_unless s path (bimap.get_by_right s.map path)

  unfoldable pub insert_after_check : FileIdStore M → P → Option ℕ → Interned × FileIdStore M
  insert_after_check s path (some id) = (interned id, s)
  insert_after_check s path none = insert_locked s path

  unfoldable pub get_or_create : FileIdStore M → P → Interned × FileIdStore M
  unfolding quick_check insert_locked insert_after_check
  get_or_create s path = insert_after_check s path (quick_check s path)

  -- What threads do to the store, in any order: a call changes it under the write lock only, where it
  -- looks for the path again.
  pub data Step : FileIdStore M → FileIdStore M → Type 0 where
    locked :
        (s t : FileIdStore M) (path : P) (r : Interned) → insert_locked s path ≡ (r, t) → Step s t

  pub data Later (s : FileIdStore M) : FileIdStore M → Type 0 where
    now : Later s s
    step : {t u : FileIdStore M} → Later s t → Step t u → Later s u
