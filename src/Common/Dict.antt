-- ===== src/Common/Dict.antt =====
-- A JavaScript `Map`, or an object used as one: its entries in the order of insertion. Setting a
-- key that is there keeps its place.
use examples_service.Common.Tests.{◌==◌, if◌then◌else◌, string_eq}
use examples_service.Common.Lists.{length}
use Prim.Native.Nat.{◌≤◌, ◌+◌}
use Prim.Native.String.{String}
use mathlib.Core.Path.{◌≡◌, refl}
use mathlib.Core.List.{List, [], ◌∷◌}
use mathlib.Core.Option.{Option, none, some}
use native.Mathlib.Omega.{arith}
use text.Mathlib.TextEquality.{eq_iff}

abbrev pub Dict {ℓ} : Type ℓ → Type ℓ
Dict V = List (String × V)

module _ {ℓ} {V : Type ℓ} where
  unfoldable pub lookup : String → Dict V → Option V
  lookup k [] = none
  lookup k ((j, v) ∷ d) = if j == k then some v else lookup k d

  unfoldable pub insert : String → V → Dict V → Dict V
  insert k v [] = (k, v) ∷ []
  insert k v ((j, w) ∷ d) = if j == k then (j, v) ∷ d else (j, w) ∷ insert k v d

  unfoldable pub erase : String → Dict V → Dict V
  erase k [] = []
  erase k ((j, w) ∷ d) = let rest = erase k d in if j == k then rest else (j, w) ∷ rest

  unfoldable pub keys : Dict V → List String
  keys [] = []
  keys ((j, w) ∷ d) = j ∷ keys d

  unfoldable pub values : Dict V → List V
  values [] = []
  values ((j, w) ∷ d) = w ∷ values d

  -- `{ ...base, ...over }`, and a loop of sets.
  unfoldable pub spread : Dict V → Dict V → Dict V
  unfolding insert
  spread base [] = base
  spread base ((k, v) ∷ over) = spread (insert k v base) over

  pub lookup-insert :
      (k j : String) (v : V) (d : Dict V)
      → lookup j (insert k v d) ≡ (if k == j then some v else lookup j d)
  unfolding lookup insert
  lookup-insert k j v [] = refl
  lookup-insert k j v ((i, w) ∷ d) =
      ground (arith, eq_iff k j, eq_iff i k, eq_iff i j, lookup-insert k j v d)

  pub lookup-erase :
      (k j : String) (d : Dict V) → lookup j (erase k d) ≡ (if k == j then none else lookup j d)
  unfolding lookup erase
  lookup-erase k j [] = ground arith
  lookup-erase k j ((i, w) ∷ d) =
      ground (arith, eq_iff k j, eq_iff i k, eq_iff i j, lookup-erase k j d)

  pub length-insert : (k : String) (v : V) (d : Dict V) → length (insert k v d) ≤ length d + 1
  unfolding insert
  length-insert k v [] = omega arith
  length-insert k v ((j, w) ∷ d) = ground (arith, length-insert k v d)

  pub length-le-insert : (k : String) (v : V) (d : Dict V) → length d ≤ length (insert k v d)
  unfolding insert
  length-le-insert k v [] = omega arith
  length-le-insert k v ((j, w) ∷ d) = ground (arith, length-le-insert k v d)

  pub length-values : (d : Dict V) → length (values d) ≡ length d
  unfolding values
  length-values [] = refl
  length-values (x ∷ d) = ground (arith, length-values d)

  -- No key stands twice.
  abbrev pub IsDistinct : Dict V → Type ℓ
  IsDistinct [] = Unit
  IsDistinct ((k, v) ∷ d) = (lookup k d ≡ none) × IsDistinct d

  abbrev pub first_of : Option V → Option V → Option V
  first_of none o = o
  first_of (some v) o = some v

  pub lookup-spread :
      (k : String) (base over : Dict V)
      → IsDistinct over
      → lookup k (spread base over) ≡ first_of (lookup k over) (lookup k base)
  unfolding spread lookup
  lookup-spread k base [] d = refl
  lookup-spread k base ((j, v) ∷ over) (new, d) =
      ground (arith, lookup-spread k (insert j v base) over d, lookup-insert j k v base, eq_iff j k)

  pub lookup-insert-other :
      (j k : String) (v w : V) (d e : Dict V)
      → lookup j d ≡ none
      → lookup k d ≡ some v
      → lookup k (insert j w e) ≡ lookup k e
  unfolding lookup
  lookup-insert-other j k v w d e h g = ground (arith, lookup-insert j k w e, eq_iff j k)
