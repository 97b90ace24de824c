-- ===== src/Registry/Includes/Contained.antt =====
-- An include stays in the directory of the packs.
use mathlib.Core.Path.{fun_ext}
use examples_service.Common.{
  ℕ, zero, suc, String, ◌≡◌, refl, ap, ◌∙◌, subst, if◌then◌else◌, arith, Bool, true, false, not,
  List, [], ◌∷◌, Bool-cases, inl, inr, contains, string_eq,
}
use examples_service.Js.{Value}
use examples_service.Errors.{AppException, Result, ok, err}
use examples_service.Registry.Includes.Inside.{IsBelow, is_inside-IsBelow}
use examples_service.Registry.Includes.{
  File, is_there, Paths, Parsers, Load, is_inside, resolve_include_path, load_resolved,
  include_from, load_file, load_yaml_with_includes, with_text, parse_content, parse_yaml_content,
}

module _ (files other : String → File) (paths : Paths) (parsers : Parsers)
    (agree : (path : String) → is_inside paths path ≡ true → files path ≡ other path) where
  resolve_include_path-agree :
      (visited : List String) (parent argument : String)
      → resolve_include_path files paths parsers visited parent argument
        ≡ resolve_include_path other paths parsers visited parent argument
  unfolding resolve_include_path
  resolve_include_path-agree visited parent argument =
      let resolved = paths.resolve (paths.directory parent) argument in
      elim (Bool-cases (is_inside paths resolved)) [
        | inl e ↦ rw (agree resolved e) refl
        | inr e ↦ rw e refl
      ]

cascade :
    (a b c d e : Bool) (u v w x y : AppException) (resolved path : String)
    → (if not a
        then err u
        else if not b
        then err v
        else if not c
        then err w
        else if not d
        then err x
        else if e
        then err y
        else ok resolved)
      ≡ ok path
    → (b ≡ true) × (d ≡ true) × (e ≡ false) × (resolved ≡ path)
cascade a b c d e u v w x y resolved path h = ground arith

-- What an include leads to is in the directory of the packs, is there, and is no file that is being
-- loaded.
pub resolve_include_path_sound :
    (files : String → File) (paths : Paths) (parsers : Parsers) (visited : List String)
    (parent argument path : String)
    → resolve_include_path files paths parsers visited parent argument ≡ ok path
    → (is_inside paths path ≡ true)
      × (is_there (files path) ≡ true)
      × (contains visited path ≡ false)
unfolding resolve_include_path
resolve_include_path_sound files paths parsers visited parent argument path h =
    let (inside, there, new, same) = cascade _ _ _ _ _ _ _ _ _ _ _ _ h in
    subst
      (λ p. (is_inside paths p ≡ true) × (is_there (files p) ≡ true) × (contains visited p ≡ false))
      same (inside, there, new)

load_resolved-agree :
    (load again : List String → String → Load Value) (visited : List String) (r : Result String)
    → ((p : String) → r ≡ ok p → load (p ∷ visited) p ≡ again (p ∷ visited) p)
    → load_resolved load visited r ≡ load_resolved again visited r
load_resolved-agree load again visited (err e) h = refl
load_resolved-agree load again visited (ok p) h = h p refl

-- The files are those of `agree`: two file systems that have the same files in the directory.
module _ (files other : String → File) (paths : Paths) (parsers : Parsers)
    (agree : (path : String) → is_inside paths path ≡ true → files path ≡ other path) where
  include_from-agree :
      (load again : List String → String → Load Value) (visited : List String) (parent a : String)
      → ((visited : List String) (path : String)
          → is_inside paths path ≡ true
          → load visited path ≡ again visited path)
      → include_from files paths parsers load visited parent a
        ≡ include_from other paths parsers again visited parent a
  include_from-agree load again visited parent a same =
      load_resolved-agree load again visited
        (resolve_include_path files paths parsers visited parent a)
        (λ path h.
          same (path ∷ visited) path
            (resolve_include_path_sound files paths parsers visited parent a path h).0)
      ∙ ap (load_resolved again visited)
          (resolve_include_path-agree files other paths parsers agree visited parent a)

  load_file-agree :
      (fuel : ℕ) (visited : List String) (path : String)
      → is_inside paths path ≡ true
      → load_file files paths parsers fuel visited path
        ≡ load_file other paths parsers fuel visited path
  unfolding load_file
  load_file-agree zero visited path h = refl
  load_file-agree (suc fuel) visited path h =
      ap
        (λ file. with_text path file (
          parse_content files paths parsers
            (include_from files paths parsers (load_file files paths parsers fuel) visited path)
            path))
        (agree path h)
      ∙ ap (λ include. with_text path (other path) (parse_content files paths parsers include path))
          (fun_ext (λ a.
            include_from-agree (load_file files paths parsers fuel)
              (load_file other paths parsers fuel) visited path a (load_file-agree fuel)))

-- What a file of the packs is loaded as depends alone on the files whose path is that of the packs'
-- directory, or goes on behind the separator at its end: no include reads another file, such as
-- one of a directory beside it whose name begins with the same text, and none finds out whether
-- there is one.
pub load_yaml_with_includes-contained :
    (files other : String → File) (paths : Paths) (parsers : Parsers)
    → ((path : String) → IsBelow paths.root path → files path ≡ other path)
    → (fuel : ℕ) (path : String) → IsBelow paths.root path
    → load_yaml_with_includes files paths parsers fuel path
      ≡ load_yaml_with_includes other paths parsers fuel path
unfolding load_yaml_with_includes
load_yaml_with_includes-contained files other paths parsers same fuel path h =
    let agree : (p : String) → is_inside paths p ≡ true → files p ≡ other p =
      λ p inside. same p (is_inside-IsBelow paths p inside) in
    ap
      (λ file. with_text path file (
        parse_yaml_content files paths parsers
          (include_from files paths parsers (load_file files paths parsers fuel) (path ∷ []) path)
          path))
      (same path h)
    ∙ ap
        (λ include.
          with_text path (other path) (parse_yaml_content files paths parsers include path))
        (fun_ext (λ a.
          include_from-agree files other paths parsers agree (load_file files paths parsers fuel)
            (load_file other paths parsers fuel) (path ∷ []) path a
            (load_file-agree files other paths parsers agree fuel)))
