-- ===== src/Mangle/Name/Charset.antt =====
-- Symbols are made of letters, digits and `_`.
use nitrate.Prelude.{◌≡◌, refl, Bool, true, false, Option, [], ◌∷◌, ◌++◌, ◌&&◌, all, arith}
use nitrate.Mangle.Bytes.{Str, is_word, all-append}
use nitrate.Mangle.Path.{mangle_string}
use nitrate.Mangle.Path.Charset.{AreBytes, decimal-is_word, mangle_string-is_word}
use nitrate.Mangle.Ty.{
  Ty, Tys, Named, no_types, with_type, no_named, named, ref_flags, mangle_type, mangle_types,
  mangle_named,
}
use nitrate.Mangle.Name.{mangle_name}

-- The names in a type are bytes.
unfoldable mutual
  pub HasBytes : Ty → Type 0
  HasBytes (Ty.array element _) = HasBytes element
  HasBytes (Ty.tuple elements) = HaveBytes elements
  HasBytes (Ty.struct name) = AreBytes name
  HasBytes (Ty.enum name) = AreBytes name
  HasBytes (Ty.type_alias name) = AreBytes name
  HasBytes (Ty.refine base _ _) = HasBytes base
  HasBytes (Ty.unresolved_array element _) = HasBytes element
  HasBytes (Ty.unresolved_refine base _ _) = HasBytes base
  HasBytes (Ty.function params return_type) = NamedHaveBytes params × HasBytes return_type
  HasBytes (Ty.reference _ _ _ to) = HasBytes to
  HasBytes (Ty.slice_ref _ _ _ element) = HasBytes element
  HasBytes (Ty.pointer _ _ _ to) = HasBytes to
  HasBytes (Ty.slice_ptr _ _ _ element) = HasBytes element
  HasBytes (Ty.parameterized base positional args) =
      HasBytes base × HaveBytes positional × NamedHaveBytes args
  HasBytes _ = Unit

  pub HaveBytes : Tys → Type 0
  HaveBytes no_types = Unit
  HaveBytes (with_type t ts) = HasBytes t × HaveBytes ts

  pub NamedHaveBytes : Named → Type 0
  NamedHaveBytes no_named = Unit
  NamedHaveBytes (named _ t ns) = HasBytes t × NamedHaveBytes ns

words-append : (xs ys : Str) → all is_word (xs ++ ys) ≡ (all is_word xs && all is_word ys)
words-append [] ys = refl
words-append (x ∷ xs) ys = ground (arith, words-append xs ys)

ref_flags-is_word : (exclusive mutable : Bool) → is_word (ref_flags exclusive mutable) ≡ true
unfolding ref_flags
ref_flags-is_word false false = refl
ref_flags-is_word false true = refl
ref_flags-is_word true false = refl
ref_flags-is_word true true = refl

ruleset words = (words-append, decimal-is_word, ref_flags-is_word)

module _ (deflate : Str → Str) (inflate : Str → Option Str) where
  abbrev TypeWords : Ty → Type 0
  TypeWords t = HasBytes t → all is_word (mangle_type deflate inflate t) ≡ true

  abbrev TypesWords : Tys → Type 0
  TypesWords ts = HaveBytes ts → all is_word (mangle_types deflate inflate ts) ≡ true

  abbrev NamedWords : Named → Type 0
  NamedWords ns = NamedHaveBytes ns → all is_word (mangle_named deflate inflate ns) ≡ true

  mangle_type-TypeWords : (t : Ty) → TypeWords t
  unfolding mangle_type HasBytes
  mangle_type-TypeWords t = elim t as TypeWords TypesWords NamedWords [
    | Ty.array (element → ih) len ↦ λ h. simp (words, ih h)
    | Ty.tuple (elements → ih) ↦ λ h. simp (words, ih h)
    | Ty.struct name ↦ λ h. mangle_string-is_word deflate inflate name h
    | Ty.enum name ↦ λ h. mangle_string-is_word deflate inflate name h
    | Ty.type_alias name ↦ λ h. mangle_string-is_word deflate inflate name h
    | Ty.refine (base → ih) _ _ ↦ λ h. ih h
    | Ty.unresolved_array (element → ih) _ ↦ λ h. simp (words, ih h)
    | Ty.unresolved_refine (base → ih) _ _ ↦ λ h. ih h
    | Ty.function (params → ihs) (return_type → ih) ↦ λ h. simp (words, ihs h.0, ih h.1)
    | Ty.reference _ e m (to → ih) ↦ λ h. simp (words, ih h)
    | Ty.slice_ref _ e m (to → ih) ↦ λ h. simp (words, ih h)
    | Ty.pointer _ e m (to → ih) ↦ λ h. simp (words, ih h)
    | Ty.slice_ptr _ e m (to → ih) ↦ λ h. simp (words, ih h)
    | Ty.parameterized (base → ih) (positional → ihs) (args → ihn) ↦
        λ h. simp (words, ih h.0, ihs h.1, ihn h.2)
    | Ty.generic_param index _ ↦ λ h. simp words
    | Ty.inferred id _ ↦ λ h. simp words
    | no_types ↦ λ h. refl
    | with_type (t → ih) (ts → ihs) ↦ λ h. simp (words, ih h.0, ihs h.1)
    | no_named ↦ λ h. refl
    | named _ (t → ih) (ns → ihs) ↦ λ h. simp (words, ih h.0, ihs h.1)
    | _ ↦ λ h. refl
  ]

  -- A symbol has letters, digits and `_` only, whatever the bytes of its names and the coder are.
  pub mangle_name-is_word :
      (package_name name : Str) (ty : Ty)
      → AreBytes package_name
      → AreBytes name
      → HasBytes ty
      → all is_word (mangle_name deflate inflate package_name name ty) ≡ true
  unfolding mangle_name
  mangle_name-is_word package_name name ty p n t =
      let string = mangle_string-is_word deflate inflate in
      let front = mangle_string deflate inflate package_name in
      all-append is_word (b'_' ∷ b'N' ∷ front) _ (string package_name p) (
        all-append is_word (mangle_string deflate inflate name) _ (string name n)
          (mangle_type-TypeWords ty t))
