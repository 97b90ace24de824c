-- ===== src/Scenario/Placeholders/Laws/Paths.antt =====
-- A test of all paths of a list.
use examples_service.Common.{
  String, Bool, true, ◌&&◌, ◌≡◌, refl, sym, ap, ◌∙◌, List, [], ◌∷◌, ◌++◌, contains, all, string_eq,
  arith, Bool-cases, inl, inr, ◌==◌, nat_eq,
}
use text.Mathlib.TextEquality.{eq_iff}
use examples_service.Scenario.Placeholders.{add_path}

module _ (p : String → Bool) where
  pub all-append : (xs ys : List String) → all p (xs ++ ys) ≡ (all p xs && all p ys)
  all-append [] ys = refl
  all-append (x ∷ xs) ys = ground (arith, all-append xs ys)

  pub all_member :
      (xs : List String) (x : String) → contains xs x ≡ true → all p xs ≡ true → p x ≡ true
  all_member [] x h g = ground arith
  all_member (y ∷ xs) x h g = elim (Bool-cases (y == x)) [
    | inl e ↦ ap p (sym ((eq_iff y x).0 e)) ∙ ground arith
    | inr e ↦ all_member xs x (ground arith) (ground arith)
  ]

  pub all-add_path :
      (path : String) (paths : List String) → all p (add_path path paths) ≡ (all p paths && p path)
  all-add_path path paths = elim (Bool-cases (contains paths path)) [
    | inl e ↦ rw e (ground (arith, all_member paths path))
    | inr e ↦ rw e (ground (arith, all-append paths (path ∷ [])))
  ]
