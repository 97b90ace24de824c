-- ===== src/Scenario/Placeholders/Laws.antt =====
-- The placeholders that are collected are those that a substitution looks up.
mod Paths
use examples_service.Scenario.Placeholders.Laws.Paths.{all-append, all_member, all-add_path}
use Prim.Native.Nat.{pred}
use examples_service.Common.{
  ℕ, zero, suc, ◌≤◌, String, ◌<>◌, Bool, true, false, ◌&&◌, ◌≡◌, refl, sym, ap, ◌∙◌, Option, none,
  some, List, [], ◌∷◌, ◌++◌, contains, all, string_eq, arith, Option-cases, Bool-cases, inl, inr,
  ◌==◌, nat_eq,
}
use text.Mathlib.TextEquality.{eq_iff}
use examples_service.Common.Text.{split}
use examples_service.Js.{
  Value, undefined, null, bool, num, str, arr, obj, Items, nil, cons, Fields, end, field,
  is_defined, to_text,
}
use examples_service.Errors.{Result, ok, err, ◌>>=◌}
use examples_service.Compiler.Substitute.{
  resolved, replace, replaced, substitute_match, substitute_text, substitute, substitute_items,
  substitute_fields, has_placeholder,
}
use examples_service.Compiler.Substitute.Laws.{placeholder_at_nil}
use examples_service.Compiler.Substitute.Lookup.{member, walk, resolve_path}
use examples_service.Compiler.Substitute.Placeholder.{placeholder_at}
use examples_service.Compiler.Substitute.Placeholder.Length.{text_length, placeholder_length}
use examples_service.Scenario.Placeholders.{
  add_path, collect_text, collect_placeholders, collect_items, collect_fields, exists_from,
  path_exists,
}

abbrev pub is_ok {ℓ} : {A : Type ℓ} → Result A → Bool
is_ok (ok a) = true
is_ok (err e) = false

bind_ok {ℓ κ} :
    {A : Type ℓ} {B : Type κ} (r : Result A) (f : A → B) → is_ok (r >>= λ a. ok (f a)) ≡ is_ok r
bind_ok (ok a) f = refl
bind_ok (err e) f = refl

module _ (variables : Fields) where
  -- A path that the variables resolve.
  abbrev pub is_resolved : String → Bool
  is_resolved path = is_defined (resolve_path variables path)

  resolved_lem : (path : String) → is_ok (resolved variables path) ≡ is_resolved path
  unfolding resolved
  resolved_lem path = elim (Bool-cases (is_resolved path)) [ inl e ↦ rw e refl | inr e ↦ rw e refl ]

  both_ok {ℓ κ μ} :
      {A : Type ℓ} {B : Type κ} {C : Type μ} (r : Result A) (q : Result B) (f : A → B → C)
      → is_ok (r >>= λ a. q >>= λ b. ok (f a b)) ≡ (is_ok r && is_ok q)
  both_ok (ok a) (ok b) f = refl
  both_ok (ok a) (err e) f = refl
  both_ok (err e) q f = refl

  collect_text_lem :
      (skip : ℕ) (s : String) (paths : List String)
      → all is_resolved (collect_text skip s paths)
        ≡ (all is_resolved paths && is_ok (replace variables skip s))
  unfolding collect_text replace
  collect_text_lem skip String.[] paths = ground arith
  collect_text_lem (suc n) (String.◌∷◌ c s) paths = collect_text_lem n s paths
  collect_text_lem zero (String.◌∷◌ c s) paths =
      elim (Option-cases (placeholder_at (String.◌∷◌ c s))) [
        | inl e ↦
            rw (e, collect_text, replace)
              (ground (
                arith,
                collect_text_lem zero s paths,
                bind_ok (replace variables zero s) (λ (t : String). String.◌∷◌ c t),
              ))
        | inr ((path, rest, n), e) ↦
            rw (e, collect_text, replace)
              (ground (
                arith,
                collect_text_lem (pred n) s (add_path path paths),
                all-add_path is_resolved path paths,
                resolved_lem path,
                both_ok (resolved variables path) (replace variables (pred n) s)
                    (λ (v : Value) (t : String). to_text v <> t),
              ))
      ]

  -- A text that a match takes as a whole has nothing after it.
  collect_taken :
      (n : ℕ) (s : String) (paths : List String)
      → text_length s ≤ n
      → collect_text n s paths ≡ paths
  unfolding collect_text
  collect_taken n String.[] paths h = refl
  collect_taken zero (String.◌∷◌ c s) paths h = absurd (omega arith)
  collect_taken (suc n) (String.◌∷◌ c s) paths h = collect_taken n s paths (omega arith)

  collect_plain :
      (s : String) (paths : List String)
      → has_placeholder s ≡ false
      → collect_text zero s paths ≡ paths
  unfolding collect_text has_placeholder
  collect_plain String.[] paths h = refl
  collect_plain (String.◌∷◌ c s) paths h = elim (Option-cases (placeholder_at (String.◌∷◌ c s))) [
    | inl e ↦ rw (e, collect_text) (collect_plain s paths (ground arith))
    | inr (found, e) ↦ absurd (ground arith)
  ]

  replaced_lem : (s : String) → is_ok (replaced variables s) ≡ is_ok (replace variables zero s)
  replaced_lem s = bind_ok (replace variables zero s) (λ t. str t)

  nothing : (found : String × String × ℕ) → none ≡ some found → ⊥
  nothing found h = ground arith

  one_match :
      (s path : String) (n : ℕ) (paths : List String)
      → placeholder_at s ≡ some (path, "", n)
      → collect_text zero s paths ≡ add_path path paths
  unfolding collect_text
  one_match String.[] path n paths h = absurd (nothing (path, "", n) (sym placeholder_at_nil ∙ h))
  one_match (String.◌∷◌ c s) path n paths h =
      rw (h, collect_text)
        (collect_taken (pred n) s (add_path path paths)
          (omega (arith, placeholder_length (String.◌∷◌ c s) path "" n h)))

  abbrev Agrees : List String → List String → Bool → Type 0
  Agrees after before done = all is_resolved after ≡ (all is_resolved before && done)

  substitute_match_lem :
      (s : String) (found : Option (String × String × ℕ)) (paths : List String)
      → placeholder_at s ≡ found
      → Agrees (collect_text zero s paths) paths (is_ok (substitute_match variables s found))
  unfolding replace resolved has_placeholder
  substitute_match_lem s (some (path, String.[], n)) paths h =
      ap (all is_resolved) (one_match s path n paths h)
      ∙ all-add_path is_resolved path paths
      ∙ ap (λ b. all is_resolved paths && b) (sym (resolved_lem path))
  substitute_match_lem s (some (path, String.◌∷◌ c rest, n)) paths h =
      collect_text_lem zero s paths ∙ ap (λ b. all is_resolved paths && b) (sym (replaced_lem s))
  substitute_match_lem s none paths h = elim (Bool-cases (has_placeholder s)) [
    | inl e ↦ rw e (
        collect_text_lem zero s paths ∙ ap (λ b. all is_resolved paths && b) (sym (replaced_lem s)))
    | inr e ↦ rw (e, collect_plain s paths e) (ground arith)
  ]

  substitute_text_lem :
      (s : String) (paths : List String)
      → Agrees (collect_text zero s paths) paths (is_ok (substitute_text variables s))
  unfolding substitute_text
  substitute_text_lem s paths = substitute_match_lem s (placeholder_at s) paths refl

  mutual
    unfolding collect_placeholders substitute

    collect_lem :
        (t : Value) (paths : List String)
        → Agrees (collect_placeholders t paths) paths (is_ok (substitute variables t))
    collect_lem undefined paths = ground arith
    collect_lem null paths = ground arith
    collect_lem (bool b) paths = ground arith
    collect_lem (num n) paths = ground arith
    collect_lem (str s) paths = substitute_text_lem s paths
    collect_lem (arr xs) paths =
        collect_items_lem xs paths
        ∙ ap (λ b. all is_resolved paths && b)
            (sym (bind_ok (substitute_items variables xs) (λ ys. arr ys)))
    collect_lem (obj fs) paths =
        collect_fields_lem fs paths
        ∙ ap (λ b. all is_resolved paths && b)
            (sym (bind_ok (substitute_fields variables fs) (λ gs. obj gs)))

    collect_items_lem :
        (xs : Items) (paths : List String)
        → Agrees (collect_items xs paths) paths (is_ok (substitute_items variables xs))
    collect_items_lem nil paths = ground arith
    collect_items_lem (cons x xs) paths = ground (
      arith,
      collect_items_lem xs (collect_placeholders x paths),
      collect_lem x paths,
      both_ok (substitute variables x) (substitute_items variables xs)
          (λ (y : Value) (ys : Items). cons y ys),
    )

    collect_fields_lem :
        (fs : Fields) (paths : List String)
        → Agrees (collect_fields fs paths) paths (is_ok (substitute_fields variables fs))
    collect_fields_lem end paths = ground arith
    collect_fields_lem (field k v fs) paths = ground (
      arith,
      collect_fields_lem fs (collect_placeholders v paths),
      collect_lem v paths,
      both_ok (substitute variables v) (substitute_fields variables fs)
          (λ (w : Value) (gs : Fields). field k w gs),
    )

  -- The variables resolve every placeholder that is collected from a template, on top of those
  -- collected before, exactly if they resolve those before and their substitution in the template
  -- succeeds.
  pub substitute-collect :
      (t : Value) (paths : List String)
      → all is_resolved (collect_placeholders t paths)
        ≡ (all is_resolved paths && is_ok (substitute variables t))
  substitute-collect t paths = collect_lem t paths

walk_undefined : (parts : List String) → walk undefined parts ≡ undefined
unfolding walk
walk_undefined [] = refl
walk_undefined (part ∷ parts) = walk_undefined parts

exists_from_lem :
    (v : Value) (parts : List String) → exists_from v parts ≡ is_defined (walk v parts)
unfolding exists_from walk
exists_from_lem v [] = refl
exists_from_lem (obj fs) (part ∷ parts) = exists_from_lem (member (obj fs) part) parts
exists_from_lem (arr xs) (part ∷ parts) = exists_from_lem (member (arr xs) part) parts
exists_from_lem v (part ∷ parts) = rw (walk_undefined parts) refl

-- `pathExists` finds a path exactly where `resolvePath` gives a value.
pub path_exists_lem :
    (variables : Fields) (path : String) → path_exists variables path ≡ is_resolved variables path
unfolding path_exists resolve_path
path_exists_lem variables path = exists_from_lem (obj variables) (split "." path)
