-- ===== src/Scenario/Placeholders.antt =====
-- `collectPlaceholders` and `pathExists` of scripts/scenario/validate.ts. A `Set` of texts is the
-- list of its elements in their order.
pub mod Laws
use Prim.Native.Nat.{pred}
use examples_service.Common.{
  ℕ, zero, suc, String, Bool, true, false, Option, none, some, List, [], ◌∷◌, ◌++◌, contains,
  string_eq, if◌then◌else◌,
}
use examples_service.Common.Text.{split}
use examples_service.Js.{
  Value, undefined, null, bool, num, str, arr, obj, Items, nil, cons, Fields, end, field,
  is_defined,
}
use examples_service.Compiler.Substitute.Lookup.{member}
use examples_service.Compiler.Substitute.Placeholder.{placeholder_at}

-- `paths.add(path)`
abbrev pub add_path : String → List String → List String
add_path path paths = if contains paths path then paths else paths ++ path ∷ []

-- The loop over the matches in a text: the characters of a match that are still to be skipped come
-- first.
unfoldable pub collect_text : ℕ → String → List String → List String
collect_text skip String.[] paths = paths
collect_text (suc n) (String.◌∷◌ c s) paths = collect_text n s paths
collect_text zero (String.◌∷◌ c s) paths = elim (placeholder_at (String.◌∷◌ c s)) [
  | none ↦ collect_text zero s paths
  | some (path, rest, n) ↦ collect_text (pred n) s (add_path path paths)
]

unfoldable mutual
  unfolding collect_text

  pub collect_placeholders : Value → List String → List String
  collect_placeholders undefined paths = paths
  collect_placeholders null paths = paths
  collect_placeholders (str s) paths = collect_text zero s paths
  collect_placeholders (arr xs) paths = collect_items xs paths
  collect_placeholders (obj fs) paths = collect_fields fs paths
  collect_placeholders (bool b) paths = paths
  collect_placeholders (num n) paths = paths

  pub collect_items : Items → List String → List String
  collect_items nil paths = paths
  collect_items (cons x xs) paths = collect_items xs (collect_placeholders x paths)

  pub collect_fields : Fields → List String → List String
  collect_fields end paths = paths
  collect_fields (field k v fs) paths = collect_fields fs (collect_placeholders v paths)

-- The loop of `pathExists`: only an object or an array is looked into.
unfoldable pub exists_from : Value → List String → Bool
unfolding member
exists_from v [] = is_defined v
exists_from (obj fs) (part ∷ parts) = exists_from (member (obj fs) part) parts
exists_from (arr xs) (part ∷ parts) = exists_from (member (arr xs) part) parts
exists_from v (part ∷ parts) = false

unfoldable pub path_exists : Fields → String → Bool
unfolding exists_from
path_exists fs path = exists_from (obj fs) (split "." path)
