-- ===== src/Compiler/Merge/Laws.antt =====
-- What a deep merge holds at each key.
use examples_service.Common.{◌≡◌, refl, arith, String, true, ◌||◌, ◌==◌, string_eq, if◌then◌else◌}
use examples_service.Js.{Value, undefined, Fields, end, field, get, has, is_defined, IsDistinct}
use examples_service.Js.{get-put, has-put, get_of_not-has}
use examples_service.Compiler.Merge.{put_defined, merge_value, merge_loop}
use text.Mathlib.TextEquality.{eq_iff}

get-put_defined :
    (j k : String) (v merged : Value) (result : Fields)
    → get k (put_defined j v merged result)
      ≡ (if is_defined v then (if j == k then merged else get k result) else get k result)
get-put_defined j k undefined merged result = refl
get-put_defined j k _ merged result = get-put j k merged result

has-put_defined :
    (j k : String) (v merged : Value) (result : Fields)
    → has k (put_defined j v merged result)
      ≡ (if is_defined v then (if j == k then true else has k result) else has k result)
has-put_defined j k undefined merged result = refl
has-put_defined j k _ merged result = has-put j k merged result

pub get-merge_loop :
    (k : String) (base result over : Fields)
    → IsDistinct over
    → get k (merge_loop base result over)
      ≡ (if is_defined (get k over) then merge_value (get k base) (get k over) else get k result)
unfolding merge_loop get
get-merge_loop k base result end d = refl
get-merge_loop k base result (field j v over) (new, d) = ground (
  arith,
  get-merge_loop k base (put_defined j v (merge_value (get j base) v) result) over d,
  get-put_defined j k v (merge_value (get j base) v) result,
  get_of_not-has j over new,
  eq_iff j k,
)

pub has-merge_loop :
    (k : String) (base result over : Fields)
    → IsDistinct over
    → has k (merge_loop base result over) ≡ has k result || is_defined (get k over)
unfolding merge_loop get
has-merge_loop k base result end d = ground arith
has-merge_loop k base result (field j v over) (new, d) = ground (
  arith,
  has-merge_loop k base (put_defined j v (merge_value (get j base) v) result) over d,
  has-put_defined j k v (merge_value (get j base) v) result,
  get_of_not-has j over new,
  eq_iff j k,
)
