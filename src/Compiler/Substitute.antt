-- ===== src/Compiler/Substitute.antt =====
-- `resolvePath` and `substitute` of src/compiler/template-resolver.ts, with the two regular
-- expressions of a placeholder.
pub mod Lookup
pub mod Placeholder
pub mod Laws
use Prim.Native.Nat.{pred}
use examples_service.Common.{
  ℕ, zero, suc, String, ◌<>◌, Bool, true, false, ◌||◌, Option, none, some, if◌then◌else◌,
}
use examples_service.Js.{Value, undefined, null, bool, num, str, arr, obj, Items, nil, cons}
use examples_service.Js.{Fields, end, field, to_text, is_defined}
use examples_service.Errors.{Result, ok, err, ◌>>=◌, app_exception, compilation_error, bad_request}
use examples_service.Compiler.Substitute.Lookup.{resolve_path}
use examples_service.Compiler.Substitute.Placeholder.{placeholder_at}

abbrev pub undefined_placeholder {ℓ} : {A : Type ℓ} → String → Result A
undefined_placeholder path =
    err
      (app_exception compilation_error ("undefined placeholder: {{ " <> path <> " }}") bad_request)

abbrev is_match {ℓ} : {A : Type ℓ} → Option A → Bool
is_match none = false
is_match (some found) = true

-- `PLACEHOLDER_RE.test(s)`
unfoldable pub has_placeholder : String → Bool
has_placeholder String.[] = false
has_placeholder (String.◌∷◌ c s) = is_match (placeholder_at (String.◌∷◌ c s)) || has_placeholder s

module _ (variables : Fields) where
  -- The value of a placeholder's path; `undefined` is refused.
  unfoldable pub resolved : String → Result Value
  resolved path =
      let v = resolve_path variables path in
      if is_defined v then ok v else undefined_placeholder path

  -- `template.replace(…)` from a place on: the characters of a match that are still to be skipped
  -- come first.
  unfoldable pub replace : ℕ → String → Result String
  replace skip String.[] = ok ""
  replace (suc n) (String.◌∷◌ c s) = replace n s
  replace zero (String.◌∷◌ c s) = elim (placeholder_at (String.◌∷◌ c s)) [
    | none ↦ replace zero s >>= λ t. ok (String.◌∷◌ c t)
    | some (path, rest, n) ↦ resolved path >>= λ v. replace (pred n) s >>= λ t. ok (to_text v <> t)
  ]

  abbrev pub replaced : String → Result Value
  replaced s = replace zero s >>= λ t. ok (str t)

  -- A text that is one placeholder as a whole keeps the type of its value.
  abbrev pub substitute_match : String → Option (String × String × ℕ) → Result Value
  substitute_match s (some (path, String.[], n)) = resolved path
  substitute_match s (some (path, String.◌∷◌ c rest, n)) = replaced s
  substitute_match s none = if has_placeholder s then replaced s else ok (str s)

  unfoldable pub substitute_text : String → Result Value
  substitute_text s = substitute_match s (placeholder_at s)

  unfoldable mutual
    pub substitute : Value → Result Value
    substitute undefined = ok undefined
    substitute null = ok null
    substitute (str s) = substitute_text s
    substitute (arr xs) = substitute_items xs >>= λ ys. ok (arr ys)
    substitute (obj fs) = substitute_fields fs >>= λ gs. ok (obj gs)
    substitute (bool b) = ok (bool b)
    substitute (num n) = ok (num n)

    pub substitute_items : Items → Result Items
    substitute_items nil = ok nil
    substitute_items (cons x xs) =
        substitute x >>= λ y. substitute_items xs >>= λ ys. ok (cons y ys)

    pub substitute_fields : Fields → Result Fields
    substitute_fields end = ok end
    substitute_fields (field k v fs) =
        substitute v >>= λ w. substitute_fields fs >>= λ gs. ok (field k w gs)
