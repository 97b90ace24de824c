-- ===== src/Compiler/Merge/Deep.antt =====
-- What a deep merge holds at each path.
use examples_service.Common.{
  ◌≡◌, refl, ap, ◌∙◌, arith, String, false, List, [], ◌∷◌, Option, none, some, if◌then◌else◌, inl,
  inr, Bool-cases, ◌||◌, ◌==◌, string_eq,
}
use examples_service.Js.{
  Value, undefined, obj, Fields, end, field, get, has, is_defined, IsDistinct,
}
use examples_service.Compiler.Merge.{merge_value, deep_merge}
use examples_service.Compiler.Merge.Laws.{get-merge_loop, has-merge_loop}

-- What is read along a path, where it ends outside of an object: `none` stands for an object.
abbrev pub leaf_at : List String → Value → Option Value
leaf_at [] (obj fs) = none
leaf_at [] v = some v
leaf_at (k ∷ ks) (obj fs) = leaf_at ks (get k fs)
leaf_at (k ∷ ks) v = some undefined

-- Two objects are overlaid key by key, and the override's value counts where it is defined; any
-- other value of the override stands as it is.
abbrev pub overlaid : List String → Value → Value → Option Value
overlaid (k ∷ ks) (obj base) (obj over) =
    if is_defined (get k over)
    then overlaid ks (get k base) (get k over)
    else leaf_at ks (get k base)
overlaid path base over = leaf_at path over

abbrev mutual
  -- No key stands twice, in the object and in those below it.
  pub AreDistinct : Fields → Type 0
  AreDistinct end = Unit
  AreDistinct (field k v fs) = (has k fs ≡ false) × IsNested v × AreDistinct fs

  pub IsNested : Value → Type 0
  IsNested (obj fs) = AreDistinct fs
  IsNested v = Unit

AreDistinct-IsDistinct : (fs : Fields) → AreDistinct fs → IsDistinct fs
AreDistinct-IsDistinct end d = tt
AreDistinct-IsDistinct (field k v fs) (new, nested, d) = (new, AreDistinct-IsDistinct fs d)

get-IsNested : (k : String) (fs : Fields) → AreDistinct fs → IsNested (get k fs)
unfolding get
get-IsNested k end d = tt
get-IsNested k (field j v fs) (new, nested, d) = elim (Bool-cases (j == k)) [
  | inl e ↦ rw e nested
  | inr e ↦ rw e (get-IsNested k fs d)
]

merged_lem :
    (path : List String) (b o : Value)
    → IsNested o
    → leaf_at path (merge_value b o) ≡ overlaid path b o
unfolding merge_value
merged_lem (k ∷ ks) (obj b) (obj o) d =
    ap (leaf_at ks) (get-merge_loop k b b o (AreDistinct-IsDistinct o d))
    ∙ elim (Bool-cases (is_defined (get k o))) [
      | inl e ↦ rw e (merged_lem ks (get k b) (get k o) (get-IsNested k o d))
      | inr e ↦ rw e refl
    ]
merged_lem [] (obj b) (obj o) d = refl
merged_lem path b o d = ground arith

-- Read along any path, a deep merge gives what the override has there, as long as both have objects
-- above it and the override is defined, and from the key on at which the override is not defined
-- what the base has; an object of both is never replaced by that of the override. Its own keys are
-- exactly those of the base and those that the override defines.
pub leaf_at-deep_merge :
    (path : List String) (k : String) (base over : Fields)
    → AreDistinct over
    → (leaf_at path (obj (deep_merge base over)) ≡ overlaid path (obj base) (obj over))
      × (has k (deep_merge base over) ≡ has k base || is_defined (get k over))
unfolding deep_merge merge_value
leaf_at-deep_merge path k base over d = (
  merged_lem path (obj base) (obj over) d,
  has-merge_loop k base base over (AreDistinct-IsDistinct over d),
)
