-- ===== src/Mangle/Symbols/Distinct.antt =====
-- The names that the pass gives.
use nitrate.Prelude.{◌≡◌, refl, ap, sym, ◌∙◌, false, Option, none, some, [], ◌∷◌, ◌++◌, arith}
use nitrate.Mangle.Bytes.{Str}
use nitrate.Mangle.Ty.Reads.{IsReadableName, IsReadableType, forget}
use nitrate.Mangle.Name.{mangle_name}
use nitrate.Mangle.Name.RoundTrip.{mangle_name-injective}
use nitrate.Mangle.Symbols.{
  Function, strip_prefix, separator, strip_package, behind_last, last_segment, get_type,
  mangle_function,
}

strip_prefix-append : (p s : Str) → strip_prefix p (p ++ s) ≡ some s
unfolding strip_prefix
strip_prefix-append [] s = refl
strip_prefix-append (c ∷ p) s = ground (arith, strip_prefix-append p s)

-- The package of a qualified name is stripped.
pub strip_package-append : (p s : Str) → strip_package p (p ++ (separator ++ s)) ≡ s
unfolding strip_package strip_prefix
strip_package-append p s = rw (strip_prefix-append p (separator ++ s)) refl

behind_last-append :
    (p s : Str) → behind_last (b':' ∷ s) ≡ none → behind_last (p ++ (separator ++ s)) ≡ some s
unfolding behind_last
behind_last-append [] s h = rw h refl
behind_last-append (c ∷ []) s h = rw h refl
behind_last-append (c ∷ d ∷ p) s h = rw (behind_last-append (d ∷ p) s h) refl

-- The bare name of a symbol that is not mangled is what follows the last separator of its name.
pub last_segment-append :
    (p s : Str) → behind_last (b':' ∷ s) ≡ none → last_segment (p ++ (separator ++ s)) ≡ s
unfolding last_segment
last_segment-append p s h = rw (behind_last-append p s h) refl

module _ (deflate : Str → Str) (inflate : Str → Option Str) where
  -- A function of the package that is mangled, by its name within the package, and readable.
  pub record IsOwn (package_name name : Str) (function : Function) : Type 0 where
    pub qualified : function.name ≡ package_name ++ (separator ++ name)
    pub mangles : function.no_mangle ≡ false
    pub readable_name : IsReadableName deflate inflate name
    pub readable_type : IsReadableType deflate inflate (get_type function)

  own_name :
      (package_name name : Str) (function : Function)
      → IsOwn package_name name function
      → (mangle_function deflate inflate package_name function).mangled_name
        ≡ some (mangle_name deflate inflate package_name name (get_type function))
  unfolding mangle_function
  own_name package_name name function own =
      rw (own.mangles, own.qualified, strip_package-append package_name name) refl

  -- For a coder that inflates what it deflates, take two functions of a package with a readable name
  -- that are mangled, by no attribute NoMangle kept as they are, and whose names and types are
  -- readable. Where the pass gives them the same name in the object file, they have the same name in
  -- the package, and types that differ in what mangling forgets only.
  pub mangle_function-injective :
      (package_name name name' : Str) (function function' : Function)
      → ((d : Str) → inflate (deflate d) ≡ some d)
      → IsReadableName deflate inflate package_name
      → IsOwn package_name name function
      → IsOwn package_name name' function'
      → (mangle_function deflate inflate package_name function).mangled_name
        ≡ (mangle_function deflate inflate package_name function').mangled_name
      → (function.name ≡ function'.name)
        × (forget (get_type function) ≡ forget (get_type function'))
  mangle_function-injective package_name name name' function function' inverse r own own' e =
      let same : some (mangle_name deflate inflate package_name name (get_type function))
          ≡ some (mangle_name deflate inflate package_name name' (get_type function')) =
        sym (own_name package_name name function own)
        ∙ e
        ∙ own_name package_name name' function' own' in
      let (_, names, types) =
        mangle_name-injective deflate inflate package_name package_name name name'
          (get_type function) (get_type function') inverse (r, own.readable_name, own.readable_type)
          (r, own'.readable_name, own'.readable_type) (cc same) in
      (own.qualified ∙ ap (λ n. package_name ++ (separator ++ n)) names ∙ sym own'.qualified, types)
