-- ===== src/Lib.antt =====
-- A model of parts of the Nitrate compiler, with theorems about it.
--
-- The compiler turns source text into tokens, a syntax tree, the HIR, the MIR and LLVM code. The
-- MIR borrow checker (src/translation/src/mir_borrow_check/src) stands between the MIR and the
-- back end: for each function it takes a snapshot of the body, computes which locals are live at
-- each statement, and runs a worklist over the basic blocks that carries the active borrows, the
-- moved places and the uninitialized places along the edges, and reports every access that
-- conflicts with them.
--
-- Lexer is src/translation/src/token/src/token.rs and src/translation/src/token_lexer/src/lex.rs, on the bytes of the
-- source:
--   Token         the tokens of token.rs; a keyword has the ending `_kw`
--   Display       how token.rs prints bytes, integers and tokens of fixed spelling
--   Words         the tables of keywords and of single bytes
--   Cursor        positions, `advance`, `peek_byte`, `read_while`, and the parts of the lexer as
--                 functions of a cursor, with the results of `?`
--   Escape, Number, Scan   the escapes, the numbers and the other tokens
--   Stream        `Lexer`, its calls, and `LexerIterator`
--   Reads         every part takes bytes off the front of the input and goes over them; Reads/Parts,
--                 Reads/Tokens, and Reads/Shrinks that a token takes a byte at least
--   Positions     a position as the lines, characters and bytes in front of it
--   Invariant     what every call keeps
--   Calls         the calls of a parser; Calls/Peeks is about peeking and going back, Calls/Fuel and
--                 Calls/Ends about the loops
--   RoundTrip     what is printed is read: Fixed, Digits, Bytes and Strings, Escapes, Numerals and
--                 Integers
-- A cursor holds the rest of the source where the code holds an offset; the source has no more bytes than
-- an offset can count. The recursion over trivia, the loop of a string and the loops over tokens are on
-- fuel. A token takes a byte at least, so that the bytes left, and one, are enough. Floats are values of
-- the parameter `F`, and `parse_f64` is the parser of the standard library.
--
-- Mir/Ty, Mir/Place and Mir/Body are the data of src/translation/src/mir/src: types (ty.rs), places
-- (place.rs), and operands, rvalues, statements, terminators, blocks and modules (operand.rs,
-- rvalue.rs, stmt.rs, func.rs). The handles of the store (store.rs) are interned, so a handle to a
-- type is the type itself, and a handle to a local or to a block is a number. Names are texts.
--
-- BorrowCheck is mir_borrow_check/src:
--   Function      the snapshot `FunctionData` of check.rs
--   Places        place.rs; Places/Order and Places/Chain are its laws
--   BitSet        `BitSet` of liveness.rs, on 64-bit words; BitSet/Laws, BitSet/Bounds and
--                 the order of BitSet/Subset
--   Liveness      the `collect_*` functions of liveness.rs; Liveness/Defs is about the words of the
--                 def sets
--   Flow          `compute_liveness`; Flow/Visit and Flow/Solution are about
--                 the equations it solves, Flow/Order, Flow/Growth, Flow/Progress and
--                 Flow/Termination about the end of its rounds, Flow/Transfer and
--                 Flow/Equations about what it is for each local, and Flow/Total puts
--                 all together
--   Error         `BorrowError` of diagnosis.rs
--   State         `BorrowRecord`, `State`, the changing fields of `BorrowChecker`, reports and kills;
--                 State/Holders and State/Reported
--   Access        `read_place`, `write_place`, `borrow_place`, two-phase activation and returned
--                 borrows; Access/Conflicts, Access/Moves, Access/Escape and
--                 Access/Activation are about what they report, Access/Checked about
--                 the tests of initialization and mutability
--   Check         `process_rvalue`, `process_operand`, `process_statement`, `process_terminator`
--   Merge         `merge_state`; Merge/Join
--   Worklist      `process_block`, `successor_edges`, `run`, and `collect_errors` of lib.rs;
--                 Worklist/Skips is about blocks that the loop does not visit
--   Invariant     one way to carry an invariant through every operation of the checker
--                 (Invariant/Block), and the log of reports (Invariant/Reports)
--   WellFormed    the invariant of the borrow records, along the worklist (WellFormed/Run)
--   Examples, Tests, CheckTests   small functions, and the theorems on them
-- Hir is src/translation/src/hir/src: Hir/Lit has the literals of expr.rs and Hir/LitOps the operators
-- of literal_ops.rs, on the bits of two's complement; Hir/LitOps/Compare and Hir/LitOps/Rotate have
-- the comparisons and the rotations, Hir/LitOps/Arithmetic the laws, and Hir/Tests runs and concrete
-- values. The arithmetic of floats is the parameter `Floats` of the operators. The errors of all
-- operators are one type, and a panic of an `unwrap` is an outcome of its own.
--
-- Hir/Ty has the types of ty.rs and the definitions of item.rs that layouts read.
--
-- Evaluate is src/translation/src/hir_evaluate/src: Evaluate/Error is error.rs, and Evaluate/Memory the
-- abstract heap of memory.rs. Memory/Allocate is about the ways an allocation goes, Memory/Entries
-- about allocations as ranges of addresses, Memory/Invariant and Memory/Reachable about what
-- every call keeps, Memory/Outcomes about when reads and writes succeed, Memory/Bounds about where
-- allocations go, and Memory/Refinement about the heap as one array of bytes.
--
-- Layout is src/translation/src/hir_type/src: sizes, alignments and strides (ty_size.rs, ty_alignment.rs,
-- ty_stride.rs). Layout/Align, Layout/Stride, Layout/Packed, Layout/Known and Layout/Total have the
-- theorems; Layout/Ensures and Layout/Ranks what they rest on. A definition is found by its position
-- in the store, so a layout is computed with fuel: the code does not return on a type that holds
-- itself by value, and `rank` of Layout/Ranks is enough fuel for all others.
--
-- Mangle is src/translation/src/hir_mangle/src, on the bytes of the texts:
--   Bytes         UTF-8, and the searches and slices of the cursor
--   Decimal, Hex  numbers and bytes as digits
--   Base63        `encode_c99_base63` and `decode_c99_base63`; Base63/Numerals and
--                 Base63/RoundTrip carry numbers between bases
--   Segment       `mangle_segment` and `demangle_segment`; Segment/Plain, Segment/Shapes,
--                 Segment/RoundTrip and Segment/Empty
--   Path          `mangle_string`, `demangle_string` and the names of modules; Path/RoundTrip and
--                 Path/Charset
--   Ty            `mangle_type` and `demangle_type`; Ty/Reads has what a mangled type keeps and what
--                 it forgets, Ty/RoundTrip that it is read back
--   Name          `mangle_name` and `demangle_name`; Name/RoundTrip and Name/Charset
--   Symbols       `mangle_symbols` of pass.rs on the functions and globals of a symbol table;
--                 Symbols/Distinct has what tells the given names apart
-- A type within a type costs fuel in the decoder, and `size` of Ty/Reads is enough. The memory for
-- the elements of a tuple is not modelled.
-- The DEFLATE coder of flate2 is two parameters, `deflate` and `inflate`; where a theorem asks that
-- one undoes the other, it says so. A compressed segment holds a segment, and the decoder has no
-- bound on how deep; here each level costs fuel, and two are enough for what the encoder writes.
-- An error leaves the cursor of a decoder somewhere; no caller reads it.
--
-- Diagnosis is src/diagnosis/src: Diagnosis/FileId has the store of file ids of file_id.rs. The steps of
-- a call under a lock are one function each, and the calls of threads are the steps of `Later`, in any
-- order; the order of memory accesses is that of the locks. The two-way map of bimap is the parameter
-- `BiMap`, with what that crate says of its operations. FileId/Invariant has the invariant, and
-- FileId/Stays what a call gives.
--
-- Arithmetic of a machine type that leaves it panics, as in a build with overflow checks; a build
-- without them wraps around there.
--
-- Prelude holds lists over the native numbers, types with a Boolean equality, bits and numerals.
--
-- Methods that change the checker or a state take both and return both. A `HashSet` is a list
-- whose order no result but the place named in a reason depends on; a `HashMap` from ids to
-- positions is the list of ids. The code panics on the id of a local or block that the function
-- does not have; here such an id has the position behind the last. The head of the worklist here
-- is its last element there. The log that errors are written to is not modelled: `collect_errors`
-- returns them.
--
-- The rounds of the liveness and the turns of the worklist are on fuel, and running out is `none`.
-- For the rounds, `enough_rounds` of Flow/Total is enough: the live sets only grow, word by word,
-- and stay below the union of all uses, so each round but the first two raises the sum of the words
-- behind the blocks. For the worklist no fuel is enough on some functions: a borrow that is live on
-- a back edge is numbered anew in every turn, so that the entry state of the loop head keeps
-- changing. The theorems on the worklist are therefore about every checker that is reached, by a
-- relation of single turns, whether the loop ends or not.
--
-- Not modelled: the printing of floats and of texts by characters, the parser, the expressions of the HIR and the passes over them, the lowerings,
-- the back end, the driver and the diagnostics' rendering.
pub mod Prelude
pub mod Mir
pub mod BorrowCheck
pub mod Hir
pub mod Evaluate
pub mod Layout
pub mod Mangle
pub mod Diagnosis
pub mod Lexer
