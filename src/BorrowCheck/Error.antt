-- ===== src/BorrowCheck/Error.antt =====
-- diagnosis.rs: the errors of the borrow checker, their numbers and their messages.
use Prim.Native.String
use nitrate.Prelude.{ℕ, String}

pub data BorrowError : Type 0 where
  -- the place and the reason
  mutable_borrow_of_immutable borrow_of_local_escape use_after_move : String → String → BorrowError
  use_before_init borrow_of_moved borrow_of_uninit : String → String → BorrowError
  assign_to_moved : String → String → BorrowError
  -- the place, the kind of the other borrow, and the reason
  mutable_borrow_conflict shared_borrow_conflict : String → String → String → BorrowError
  write_while_borrowed read_while_mutably_borrowed : String → String → String → BorrowError
  move_while_borrowed two_phase_activation_conflict : String → String → String → BorrowError

unfoldable pub variant_id : BorrowError → ℕ
variant_id (mutable_borrow_of_immutable _ _) = 0x100
variant_id (mutable_borrow_conflict _ _ _) = 0x101
variant_id (shared_borrow_conflict _ _ _) = 0x102
variant_id (write_while_borrowed _ _ _) = 0x103
variant_id (read_while_mutably_borrowed _ _ _) = 0x104
variant_id (borrow_of_local_escape _ _) = 0x105
variant_id (move_while_borrowed _ _ _) = 0x106
variant_id (use_after_move _ _) = 0x107
variant_id (use_before_init _ _) = 0x108
variant_id (borrow_of_moved _ _) = 0x109
variant_id (borrow_of_uninit _ _) = 0x10A
variant_id (assign_to_moved _ _) = 0x10B
variant_id (two_phase_activation_conflict _ _ _) = 0x10C

infixr 65 ◌<>◌
abbrev pub ◌<>◌ : String → String → String
s <> t = String.◌++◌ s t

-- The `Display` of an error.
unfoldable pub display : BorrowError → String
display (mutable_borrow_of_immutable p r) = "cannot borrow " <> p <> " as mutable — " <> r
display (mutable_borrow_conflict p k r) =
    "cannot borrow " <> p <> " as mutable because it is already borrowed (" <> k <> ") — " <> r
display (shared_borrow_conflict p k r) =
    "cannot borrow " <> p <> " as shared because it is already mutably borrowed (" <> k <> ") — "
    <> r
display (write_while_borrowed p k r) =
    "cannot assign to " <> p <> " because it is borrowed (" <> k <> ") — " <> r
display (read_while_mutably_borrowed p k r) =
    "cannot read " <> p <> " because it is mutably borrowed (" <> k <> ") — " <> r
display (borrow_of_local_escape p r) =
    "cannot return a reference to local variable " <> p <> " — " <> r
display (move_while_borrowed p k r) =
    "cannot move out of " <> p <> " because it is borrowed (" <> k <> ") — " <> r
display (use_after_move p r) = "use of moved value " <> p <> " — " <> r
display (use_before_init p r) = "use of possibly-uninitialized value " <> p <> " — " <> r
display (borrow_of_moved p r) = "cannot borrow " <> p <> " because it was moved — " <> r
display (borrow_of_uninit p r) =
    "cannot borrow " <> p <> " because it is possibly-uninitialized — " <> r
display (assign_to_moved p r) = "cannot assign to " <> p <> " because its parent was moved — " <> r
display (two_phase_activation_conflict p k r) =
    "mutable borrow of " <> p <> " was activated while a " <> k <> " borrow was still active — "
    <> r
