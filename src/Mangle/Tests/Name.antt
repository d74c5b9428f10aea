-- ===== src/Mangle/Tests/Name.antt =====
-- Mangled types and symbols, and the theorems on them.
use nitrate.Prelude.{◌^◌, ◌≤◌, ◌≡◌, refl, true, false, none, some, [], ◌∷◌, ◌++◌, all, arith}
use nitrate.Hir.Lit.{Lit}
use nitrate.Mangle.Bytes.{from_utf8, is_word, split_at_first}
use nitrate.Mangle.Decimal.{decimal, parse_unsigned}
use nitrate.Mangle.Segment.{ok, err}
use nitrate.Mangle.Ty.{
  Lifetime, Ty, no_types, with_type, no_named, named, mangle_type, demangle_type,
}
use nitrate.Mangle.Ty.Reads.{IsReadableName, IsReadableType, forget, size}
use nitrate.Mangle.Name.{mangle_name, demangle_name}
use nitrate.Mangle.Name.Charset.{HasBytes, mangle_name-is_word}
use nitrate.Mangle.Name.RoundTrip.{demangle_name-mangle_name}
use nitrate.Mangle.Symbols.{Function, separator, get_type, mangle_function, mangle_symbols}
use nitrate.Mangle.Symbols.Distinct.{IsOwn, mangle_function-injective}
use nitrate.Mangle.Tests.{
  deflate, inflate, inflate-deflate, short_path, long_path, short_path-AreReadable, short_path_fits,
}

-- A function that takes a shared reference to `a::b` and an array, and returns a generic type.
abbrev sample : Ty
sample =
    Ty.function
      (named (b'x' ∷ []) (Ty.reference Lifetime.static false true (Ty.struct short_path))
        (named (b'y' ∷ []) (Ty.array Ty.u8 12) no_named))
      (Ty.parameterized (Ty.enum short_path) (with_type Ty.bool no_types)
        (named (b'T' ∷ []) (Ty.refine Ty.i32 (Lit.i32 1) (Lit.i32 5)) no_named))

-- W2_X1S2_1a1bQD12_cT2_1a1b2_CVL
sample_mangled :
    mangle_type deflate inflate sample
    ≡ b'W' ∷ b'2' ∷ b'_' ∷ b'X' ∷ b'1' ∷ b'S' ∷ b'2' ∷ b'_' ∷ b'1' ∷ b'a' ∷ b'1' ∷ b'b' ∷ b'Q'
      ∷ b'D' ∷ b'1' ∷ b'2' ∷ b'_' ∷ b'c' ∷ b'T' ∷ b'2' ∷ b'_' ∷ b'1' ∷ b'a' ∷ b'1' ∷ b'b' ∷ b'2'
      ∷ b'_' ∷ b'C' ∷ b'V' ∷ b'L' ∷ []
unfolding mangle_type
sample_mangled = refl

-- `Str` and a zero inferred id are not read, nor an array whose length has more than 32 bits.
type_errors :
    (demangle_type deflate inflate 2 2 (mangle_type deflate inflate Ty.str) ≡ err)
    × (demangle_type deflate inflate 2 2 (b'e' ∷ b'0' ∷ b'_' ∷ []) ≡ err)
    × (demangle_type deflate inflate 2 2 (b'Q' ∷ b'A' ∷ decimal (2 ^ 32) ++ b'_' ∷ []) ≡ err)
unfolding demangle_type mangle_type split_at_first from_utf8 parse_unsigned decimal
type_errors = (refl, refl, refl)

short_path-IsReadableName : IsReadableName deflate inflate short_path
short_path-IsReadableName = (short_path-AreReadable, short_path_fits)

sample-IsReadableType : IsReadableType deflate inflate sample
unfolding IsReadableType
sample-IsReadableType = (
  (short_path-IsReadableName, ((tt, omega arith), tt)),
  omega arith,
  (short_path-IsReadableName, (tt, tt), (tt, tt), omega arith),
)

sample_fits : size sample ≤ 20
unfolding size
sample_fits = omega arith

sample-HasBytes : HasBytes sample
unfolding HasBytes
sample-HasBytes = ((refl, (tt, tt)), (refl, (tt, tt), (tt, tt)))

-- A function `a::b` of the package `a::b`, and one with a bare name.
abbrev main : Function
main = record {
  name = short_path ++ (separator ++ short_path);
  no_mangle = false;
  params = no_named;
  return_type = Ty.unit;
  mangled_name = none;
}

abbrev printf : Function
printf = record main { no_mangle = true }

-- _N2_1a1b2_1a1bW0_B, b
symbols_mangled :
    mangle_symbols deflate inflate short_path
      (record { functions = main ∷ printf ∷ []; globals = [] })
    ≡ record {
      functions =
          record main {
            mangled_name = some (
                b'_' ∷ b'N' ∷ b'2' ∷ b'_' ∷ b'1' ∷ b'a' ∷ b'1' ∷ b'b' ∷ b'2' ∷ b'_' ∷ b'1' ∷ b'a'
                ∷ b'1' ∷ b'b' ∷ b'W' ∷ b'0' ∷ b'_' ∷ b'B' ∷ []);
          }
          ∷ record printf { mangled_name = some (b'b' ∷ []) }
          ∷ [];
      globals = [];
    }
unfolding mangle_symbols
symbols_mangled = refl

demangle_name-mangle_name_example :
    demangle_name deflate inflate 2 20 (mangle_name deflate inflate short_path short_path sample)
    ≡ ok (short_path, short_path, forget sample) []
demangle_name-mangle_name_example =
    demangle_name-mangle_name deflate inflate 0 20 short_path short_path sample inflate-deflate
      short_path-IsReadableName short_path-IsReadableName sample-IsReadableType sample_fits

-- The same function under another name of its parameter.
abbrev of_x : Function
of_x = record main { params = named (b'x' ∷ []) Ty.i32 no_named }

abbrev of_y : Function
of_y = record main { params = named (b'y' ∷ []) Ty.i32 no_named }

of_x-IsOwn : IsOwn deflate inflate short_path short_path of_x
unfolding IsReadableType get_type
of_x-IsOwn = record {
  qualified = refl;
  mangles = refl;
  readable_name = short_path-IsReadableName;
  readable_type = ((tt, tt), omega arith, tt);
}

of_y-IsOwn : IsOwn deflate inflate short_path short_path of_y
unfolding IsReadableType get_type
of_y-IsOwn = record {
  qualified = refl;
  mangles = refl;
  readable_name = short_path-IsReadableName;
  readable_type = ((tt, tt), omega arith, tt);
}

one_symbol :
    (mangle_function deflate inflate short_path of_x).mangled_name
    ≡ (mangle_function deflate inflate short_path of_y).mangled_name
unfolding mangle_function mangle_type
one_symbol = refl

mangle_function-injective_example :
    (of_x.name ≡ of_y.name) × (forget (get_type of_x) ≡ forget (get_type of_y))
mangle_function-injective_example =
    mangle_function-injective deflate inflate short_path short_path short_path of_x of_y
      inflate-deflate short_path-IsReadableName of_x-IsOwn of_y-IsOwn one_symbol

mangle_name-is_word_example :
    all is_word (mangle_name deflate inflate long_path short_path sample) ≡ true
mangle_name-is_word_example =
    mangle_name-is_word deflate inflate long_path short_path sample refl refl sample-HasBytes
