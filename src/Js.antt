-- ===== src/Js.antt =====
-- The JavaScript values that the service handles as `unknown`: parsed YAML and JSON, and what is
-- made of them. A number is held by the text that `String(n)` gives, since the service copies and
-- prints numbers of this kind and computes with none of them.
use examples_service.Common.{String, ◌<>◌, Bool, true, false, not, ◌&&◌}
use examples_service.Common.{◌==◌, string_eq, if◌then◌else◌, ◌≡◌, refl, arith}
use examples_service.Common.Text.{truthy}
use text.Mathlib.TextEquality.{eq_iff}

mutual
  pub data Value : Type 0 where
    undefined null : Value
    bool : Bool → Value
    num str : String → Value
    obj : Fields → Value
    arr : Items → Value

  pub data Items : Type 0 where
    nil : Items
    cons : Value → Items → Items

  -- The own enumerable properties of an object, in their order.
  pub data Fields : Type 0 where
    end : Fields
    field : String → Value → Fields → Fields

-- The truth value. A number is falsy at 0, -0 and NaN, which print as `0` and `NaN`.
unfoldable pub is_truthy : Value → Bool
is_truthy undefined = false
is_truthy null = false
is_truthy (bool b) = b
is_truthy (num n) = not (n == "0") && not (n == "NaN")
is_truthy (str s) = truthy s
is_truthy _ = true

abbrev pub is_defined : Value → Bool
is_defined undefined = false
is_defined _ = true

-- `o[key]`, which is `undefined` where there is no such property.
unfoldable pub get : String → Fields → Value
get k end = undefined
get k (field j v fs) = if j == k then v else get k fs

-- `key in o`
unfoldable pub has : String → Fields → Bool
has k end = false
has k (field j v fs) = if j == k then true else has k fs

-- `o[key] = v`
unfoldable pub put : String → Value → Fields → Fields
put k v end = field k v end
put k v (field j w fs) = if j == k then field j v fs else field j w (put k v fs)

-- `{ ...base, ...over }`
unfoldable pub spread : Fields → Fields → Fields
spread base end = base
spread base (field k v over) = spread (put k v base) over

pub get-put :
    (k j : String) (v : Value) (fs : Fields) → get j (put k v fs) ≡ (if k == j then v else get j fs)
unfolding get put
get-put k j v end = refl
get-put k j v (field i w fs) = ground (arith, eq_iff k j, eq_iff i k, eq_iff i j, get-put k j v fs)

pub has-put :
    (k j : String) (v : Value) (fs : Fields)
    → has j (put k v fs) ≡ (if k == j then true else has j fs)
unfolding has put
has-put k j v end = refl
has-put k j v (field i w fs) = ground (arith, eq_iff k j, eq_iff i k, eq_iff i j, has-put k j v fs)

-- How an array prints an element whose own text is given: `null` and `undefined` are empty.
element : Value → String → String
element undefined t = ""
element null t = ""
element v t = t

-- `String(v)`. The elements of an array are joined by commas.
unfoldable mutual
  unfolding element

  pub to_text : Value → String
  to_text undefined = "undefined"
  to_text null = "null"
  to_text (bool b) = if b then "true" else "false"
  to_text (num n) = n
  to_text (str s) = s
  to_text (arr xs) = join xs
  to_text (obj fs) = "[object Object]"

  join : Items → String
  join nil = ""
  join (cons x nil) = element x (to_text x)
  join (cons x (cons y xs)) = element x (to_text x) <> "," <> join (cons y xs)

-- No key stands twice, as in every object.
abbrev pub IsDistinct : Fields → Type 0
IsDistinct end = Unit
IsDistinct (field k v fs) = (has k fs ≡ false) × IsDistinct fs

pub get_of_not-has : (k : String) (fs : Fields) → has k fs ≡ false → get k fs ≡ undefined
unfolding has get
get_of_not-has k end h = refl
get_of_not-has k (field j v fs) h = ground (arith, get_of_not-has k fs)

pub get-spread :
    (k : String) (base over : Fields)
    → IsDistinct over
    → get k (spread base over) ≡ (if has k over then get k over else get k base)
unfolding spread has get
get-spread k base end d = refl
get-spread k base (field j v over) (new, d) =
    ground (arith, get-spread k (put j v base) over d, get-put j k v base, eq_iff j k)
