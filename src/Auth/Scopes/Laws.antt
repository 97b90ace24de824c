-- ===== src/Auth/Scopes/Laws.antt =====
-- What the merge of the scopes holds.
use examples_service.Common.{
  ◌≡◌, refl, arith, String, Bool, true, false, some, ◌==◌, string_eq, if◌then◌else◌,
}
use examples_service.Js.{
  Value, undefined, null, bool, num, str, arr, obj, Fields, end, field, get, has, IsDistinct,
  get-put,
}
use examples_service.Auth.Scopes.{drop_key, merge_scope, merge_fields, merge_scopes}
use text.Mathlib.TextEquality.{eq_iff}

abbrev pub is_null : Value → Bool
is_null null = true
is_null _ = false

get-drop_key :
    (k j : String) (fs : Fields) → get j (drop_key k fs) ≡ (if k == j then undefined else get j fs)
unfolding get drop_key
get-drop_key k j end = ground arith
get-drop_key k j (field i v fs) =
    ground (arith, eq_iff k j, eq_iff i k, eq_iff i j, get-drop_key k j fs)

get-merge_scope :
    (k j : String) (v : Value) (fs : Fields)
    → get j (merge_scope k v fs)
      ≡ (if k == j then (if is_null v then undefined else v) else get j fs)
get-merge_scope k j null fs = get-drop_key k j fs
get-merge_scope k j undefined fs = get-put k j undefined fs
get-merge_scope k j (bool b) fs = get-put k j (bool b) fs
get-merge_scope k j (num n) fs = get-put k j (num n) fs
get-merge_scope k j (str s) fs = get-put k j (str s) fs
get-merge_scope k j (arr xs) fs = get-put k j (arr xs) fs
get-merge_scope k j (obj gs) fs = get-put k j (obj gs) fs

-- What the override says of a key replaces the default: `null` clears it, and the defaults stand
-- where the override says nothing.
pub get-merge_fields :
    (k : String) (base over : Fields)
    → IsDistinct over
    → get k (merge_scopes base (some over)) ≡ (
        if has k over then (if is_null (get k over) then undefined else get k over) else get k base)
unfolding merge_fields get has
get-merge_fields k base end d = refl
get-merge_fields k base (field j v over) (new, d) = ground (
  arith,
  get-merge_fields k (merge_scope j v base) over d,
  get-merge_scope j k v base,
  eq_iff j k,
)
