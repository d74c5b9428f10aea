-- ===== src/BorrowCheck/Examples.antt =====
-- Small functions on which the checker runs.
use nitrate.Prelude.{ℕ, true, false, List, [], ◌∷◌, none, some}
use nitrate.Mir.Ty
use nitrate.Mir.Place.{local, deref, field}
use nitrate.Mir.Body.{
  BasicBlock, Statement, Terminator, Rvalue, copy, constant, shared, mutable, MirModule, LocalDecl,
  MirLiteral,
}
use nitrate.BorrowCheck.Function.{FunctionData}
use nitrate.BorrowCheck.Flow.{LivenessInfo}
use nitrate.BorrowCheck.State.{State, BorrowRecord, Location}

abbrev pub no_globals : MirModule
no_globals = record { globals = []; string_globals = [] }

abbrev pub int_local : LocalDecl
int_local = record { ty = Ty.i32; mutable = true }

abbrev pub ref_local : LocalDecl
ref_local = record { ty = Ty.reference false true Ty.i32; mutable = true }

abbrev pub one : Rvalue
one = Rvalue.use_ (constant (MirLiteral.i32 1))

abbrev pub function : List LocalDecl → List ℕ → ℕ → List BasicBlock → List ℕ → FunctionData
function decls ids args blocks block_ids = record {
  locals = decls;
  local_ids = ids;
  arg_count = args;
  blocks = blocks;
  entry = 0;
  block_ids = block_ids;
}

abbrev pub plain_block : List Statement → Terminator → BasicBlock
plain_block ss t = record { statements = ss; terminator = t; args = []; arg_local_ids = [] }

-- x = 1; r = &mut x; x = 1; use r
abbrev pub write_while : FunctionData
write_while =
    function (int_local ∷ ref_local ∷ []) (0 ∷ 1 ∷ []) 0
      (plain_block
          (Statement.assign (local 0) one
            ∷ Statement.assign (local 1) (Rvalue.ref mutable (local 0))
            ∷ Statement.assign (local 0) one
            ∷ Statement.assign (deref (local 1)) one
            ∷ [])
          (Terminator.return_ (some (copy (local 1))))
        ∷ [])
      (0 ∷ [])

-- the same, but r is read and written by one statement
abbrev pub write_while_2 : FunctionData
write_while_2 =
    function (int_local ∷ ref_local ∷ []) (0 ∷ 1 ∷ []) 0
      (plain_block
          (Statement.assign (local 0) one
            ∷ Statement.assign (local 1) (Rvalue.ref mutable (local 0))
            ∷ Statement.assign (local 0) one
            ∷ Statement.assign (local 1) (Rvalue.use_ (copy (local 1)))
            ∷ [])
          (Terminator.return_ none)
        ∷ [])
      (0 ∷ [])

-- parameters only, goto b1 in which a conflict occurs
abbrev pub skipped : FunctionData
skipped =
    function (int_local ∷ ref_local ∷ []) (0 ∷ 1 ∷ []) 2
      (plain_block [] (Terminator.goto 1 [])
        ∷ plain_block
            (Statement.assign (local 1) (Rvalue.ref mutable (local 0))
              ∷ Statement.assign (local 0) one
              ∷ Statement.assign (deref (local 1)) one
              ∷ [])
            (Terminator.return_ (some (copy (local 1))))
        ∷ [])
      (0 ∷ 1 ∷ [])

-- b0: goto b1; b1: use r; r = &x; goto b1
abbrev pub looping : FunctionData
looping =
    function (int_local ∷ ref_local ∷ int_local ∷ []) (0 ∷ 1 ∷ 2 ∷ []) 2
      (plain_block [] (Terminator.goto 1 [])
        ∷ plain_block
            (Statement.assign (local 2) (Rvalue.use_ (copy (deref (local 1))))
              ∷ Statement.assign (local 1) (Rvalue.ref shared (local 0))
              ∷ [])
            (Terminator.goto 1 [])
        ∷ [])
      (0 ∷ 1 ∷ [])

-- A liveness in which nothing is live.
abbrev pub no_liveness : LivenessInfo
no_liveness = record {
  live_before = [];
  live_out = [];
  use_counts = [];
  call_arg_uses = record { words = [] };
}

abbrev pub start : Location
start = record { block = 0; stmt = 0 }

-- a mutable borrow of the field `a` of the first local, held by the second
abbrev pub a_borrow : BorrowRecord
a_borrow = record {
  idx = 0;
  kind = mutable;
  source = field (local 0) "a";
  holders = local 1 ∷ [];
  two_phase = false;
  activated = true;
}

abbrev pub borrowed : State
borrowed = record { borrows = a_borrow ∷ []; moved = []; uninit = local 2 ∷ [] }

abbrev pub moved_from : State
moved_from = record { borrows = []; moved = local 3 ∷ []; uninit = local 3 ∷ [] }

-- x = 1; return x
abbrev pub returns_x : FunctionData
returns_x =
    function (int_local ∷ []) (0 ∷ []) 0
      (plain_block (Statement.assign (local 0) one ∷ [])
          (Terminator.return_ (some (copy (local 0))))
        ∷ [])
      (0 ∷ [])

-- the borrow of `borrowed`, and a reserved one of the whole local
abbrev pub reserved_borrow : BorrowRecord
reserved_borrow = record {
  idx = 1;
  kind = mutable;
  source = local 0;
  holders = local 2 ∷ [];
  two_phase = true;
  activated = false;
}

abbrev pub reserved : State
reserved = record { borrows = a_borrow ∷ reserved_borrow ∷ []; moved = []; uninit = [] }
