-- ===== src/Mangle/Symbols.antt =====
-- `mangle_symbols` of pass.rs. Of a symbol table there are its functions and its globals, and of
-- these what the pass reads and writes: a parameter is its name and its type.
pub mod Distinct
use nitrate.Prelude.{
  ℕ, Bool, true, false, ◌&&◌, Option, none, some, List, [], ◌∷◌, ◌++◌, ◌==◌, if◌then◌else◌, map,
}
use nitrate.Mangle.Bytes.{Str, ◌>>=◌}
use nitrate.Mangle.Ty.{Ty, Named}
use nitrate.Mangle.Name.{mangle_name}

pub record Function : Type 0 where
  pub name : Str
  pub no_mangle : Bool
  pub params : Named
  pub return_type : Ty
  pub mangled_name : Option Str

pub record GlobalVariable : Type 0 where
  pub name : Str
  pub no_mangle : Bool
  pub ty : Ty
  pub mangled_name : Option Str

pub record SymbolTab : Type 0 where
  pub functions : List Function
  pub globals : List GlobalVariable

-- `str::strip_prefix`.
unfoldable pub strip_prefix : Str → Str → Option Str
strip_prefix [] s = some s
strip_prefix (c ∷ p) [] = none
strip_prefix (c ∷ p) (d ∷ s) = let rest = strip_prefix p s in if c == d then rest else none

abbrev pub separator : Str
separator = b':' ∷ b':' ∷ []

abbrev pub unwrap_or : Option Str → Str → Str
unwrap_or none s = s
unwrap_or (some t) s = t

unfoldable pub strip_package : Str → Str → Str
unfolding strip_prefix
strip_package package_name name =
    unwrap_or (strip_prefix package_name name >>= strip_prefix separator) name

-- What is behind the last separator.
unfoldable pub behind_last : Str → Option Str
behind_last [] = none
behind_last (c ∷ []) = none
behind_last (c ∷ d ∷ s) =
    let later = behind_last (d ∷ s) in
    elim later [ some rest ↦ some rest | none ↦ if c == b':' && d == b':' then some s else none ]

unfoldable pub last_segment : Str → Str
unfolding behind_last
last_segment name = unwrap_or (behind_last name) name

unfoldable pub get_type : Function → Ty
get_type function = Ty.function function.params function.return_type

module _ (deflate : Str → Str) (inflate : Str → Option Str) where
  -- The name of a symbol in the object file.
  unfoldable pub symbol_name : Str → Str → Bool → Ty → Str
  unfolding strip_package last_segment mangle_name
  symbol_name package_name name no_mangle ty =
      if no_mangle
      then last_segment name
      else mangle_name deflate inflate package_name (strip_package package_name name) ty

  unfoldable pub mangle_function : Str → Function → Function
  unfolding symbol_name get_type
  mangle_function package_name function = record function {
    mangled_name =
        some (symbol_name package_name function.name function.no_mangle (get_type function));
  }

  unfoldable pub mangle_global : Str → GlobalVariable → GlobalVariable
  unfolding symbol_name
  mangle_global package_name global = record global {
    mangled_name = some (symbol_name package_name global.name global.no_mangle global.ty);
  }

  unfoldable pub mangle_symbols : Str → SymbolTab → SymbolTab
  unfolding mangle_function mangle_global
  mangle_symbols package_name tab = record {
    functions = map (mangle_function package_name) tab.functions;
    globals = map (mangle_global package_name) tab.globals;
  }
