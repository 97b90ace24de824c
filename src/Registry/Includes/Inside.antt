-- ===== src/Registry/Includes/Inside.antt =====
-- What the guard of an include says: which paths are below the directory of the packs.
use examples_service.Common.{
  String, ◌<>◌, ◌≡◌, sym, ap, ◌∙◌, true, none, some, ◌⊎◌, inl, inr, ◌==◌, string_eq, arith,
  Bool-cases, Option-cases, starts_with, subst, if_true,
}
use text.Mathlib.TextEquality.{eq_iff, starts_with_iff}
use text.Mathlib.TextLemmas.{nil-append, cons-append}
use mathlib.Core.Option.{some-injective}
use examples_service.Common.Words.{before_suffix}
use examples_service.Registry.Includes.{Paths, is_inside}

-- The directory itself, or a path that goes on behind a separator at its end: that of the directory,
-- where it ends in one, or one that is put there.
abbrev pub IsBelow : String → String → Type 0
IsBelow root path =
    (path ≡ root)
    ⊎ ((rest : String) × ((root <> "/") <> rest ≡ path))
    ⊎ ((stem : String) × (rest : String) × (stem <> "/" ≡ root) × (root <> rest ≡ path))

before_suffix_sound : (suffix s t : String) → before_suffix suffix s ≡ some t → t <> suffix ≡ s
unfolding before_suffix
before_suffix_sound suffix String.[] t h = elim (Bool-cases (suffix == "")) [
  | inl e ↦
      let same : "" ≡ t = some-injective "" t (sym (if_true none e) ∙ h) in
      subst (λ x. x <> suffix ≡ "") same (nil-append suffix ∙ (eq_iff suffix "").0 e)
  | inr e ↦ absurd (ground arith)
]
before_suffix_sound suffix (String.◌∷◌ c s) t h = elim (Option-cases (before_suffix suffix s)) [
  | inl e ↦ elim (Bool-cases (String.◌∷◌ c s == suffix)) [
    | inl f ↦
        let same : "" ≡ t = ground (arith, some-injective "" t) in
        subst (λ x. x <> suffix ≡ String.◌∷◌ c s) same
          (nil-append suffix ∙ sym ((eq_iff (String.◌∷◌ c s) suffix).0 f))
    | inr f ↦ absurd (ground arith)
  ]
  | inr (u, e) ↦
      let same : String.◌∷◌ c u ≡ t = ground (arith, some-injective (String.◌∷◌ c u) t) in
      subst (λ x. x <> suffix ≡ String.◌∷◌ c s) same
        (cons-append c u suffix ∙ ap (λ x. String.◌∷◌ c x) (before_suffix_sound suffix s u e))
]

pub is_inside-IsBelow :
    (paths : Paths) (path : String) → is_inside paths path ≡ true → IsBelow paths.root path
unfolding is_inside
is_inside-IsBelow paths path h = elim (Bool-cases (path == paths.root)) [
  | inl e ↦ inl ((eq_iff path paths.root).0 e)
  | inr e ↦ elim (Option-cases (before_suffix "/" paths.root)) [
    | inl f ↦
        let prefix : starts_with path (paths.root <> "/") ≡ true = ground arith in
        inr (inl ((starts_with_iff path (paths.root <> "/")).0 prefix))
    | inr (stem, f) ↦
        let prefix : starts_with path paths.root ≡ true = ground arith in
        let (rest, g) = (starts_with_iff path paths.root).0 prefix in
        inr (inr (stem, rest, before_suffix_sound "/" paths.root stem f, g))
  ]
]
