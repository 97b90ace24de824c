-- ===== src/Common/Unique.antt =====
-- Lists of texts as sets: no text stands twice.
use Prim.Native.String.{String}
use mathlib.Core.Path.{◌≡◌, refl}
use mathlib.Core.Bool.{false, ◌||◌}
use mathlib.Core.List.{List, [], ◌∷◌, ◌++◌}
use native.Mathlib.Omega.{arith}
use text.Mathlib.TextEquality.{eq_iff}
use examples_service.Common.Tests.{string_eq}
use examples_service.Common.Lists.{contains}

-- No text stands twice.
abbrev pub IsUnique : List String → Type 0
IsUnique [] = Unit
IsUnique (t ∷ ts) = (contains ts t ≡ false) × IsUnique ts

pub contains-append :
    (xs ys : List String) (t : String) → contains (xs ++ ys) t ≡ (contains xs t || contains ys t)
contains-append [] ys t = refl
contains-append (x ∷ xs) ys t = ground (arith, contains-append xs ys t)

pub IsUnique-snoc :
    (ts : List String) (t : String) → IsUnique ts → contains ts t ≡ false → IsUnique (ts ++ t ∷ [])
IsUnique-snoc [] t u h = (refl, tt)
IsUnique-snoc (x ∷ ts) t (new, u) h = (
  ground (arith, contains-append ts (t ∷ []) x, eq_iff x t, eq_iff t x),
  IsUnique-snoc ts t u (ground arith),
)
