-- ===== src/Common/Lists.antt =====
-- Lists with Boolean tests, measured by native numbers.
use Prim.Native.Nat.{ℕ, suc, ◌+◌, ◌≤◌}
use mathlib.Core.Path.{◌≡◌, refl}
use mathlib.Core.Logic.{◌≢◌, ◌↔◌}
use mathlib.Core.Bool.{Bool, true, false, ◌&&◌, ◌||◌}
use mathlib.Core.List.{List, [], ◌∷◌, ◌++◌, map}
use mathlib.Core.Option.{Option, none, some}
use native.Mathlib.Omega.{arith}
use examples_service.Common.Tests.{StrictEquality, ◌==◌, if◌then◌else◌}

module _ {ℓ} {A : Type ℓ} where
  abbrev pub length : List A → ℕ
  length [] = 0
  length (x ∷ xs) = suc (length xs)

  abbrev pub filter : (A → Bool) → List A → List A
  filter p [] = []
  filter p (x ∷ xs) = let rest = filter p xs in if p x then x ∷ rest else rest

  abbrev pub all : (A → Bool) → List A → Bool
  all p [] = true
  all p (x ∷ xs) = p x && all p xs

  abbrev pub any : (A → Bool) → List A → Bool
  any p [] = false
  any p (x ∷ xs) = p x || any p xs

  -- How many elements pass a test, without the list of them.
  abbrev pub count : (A → Bool) → List A → ℕ
  count p [] = 0
  count p (x ∷ xs) = (if p x then 1 else 0) + count p xs

  pub length-filter : (p : A → Bool) (xs : List A) → length (filter p xs) ≡ count p xs
  length-filter p [] = refl
  length-filter p (x ∷ xs) = ground (arith, length-filter p xs)

  pub count-le-length : (p : A → Bool) (xs : List A) → count p xs ≤ length xs
  count-le-length p [] = omega arith
  count-le-length p (x ∷ xs) = ground (arith, count-le-length p xs)

  pub count-append : (p : A → Bool) (xs ys : List A) → count p (xs ++ ys) ≡ count p xs + count p ys
  count-append p [] ys = omega arith
  count-append p (x ∷ xs) ys = ground (arith, count-append p xs ys)

  pub count-snoc :
      (p : A → Bool) (x : A) (xs : List A)
      → count p (xs ++ x ∷ []) ≡ count p xs + (if p x then 1 else 0)
  count-snoc p x [] = omega arith
  count-snoc p x (y ∷ xs) = omega (arith, count-snoc p x xs)

  -- Filtering twice counts what passes both tests.
  pub length-filter-filter :
      (p q : A → Bool) (xs : List A) → length (filter p (filter q xs)) ≡ count (λ x. q x && p x) xs
  length-filter-filter p q [] = refl
  length-filter-filter p q (x ∷ xs) = ground (arith, length-filter-filter p q xs)

  pub any-count : (p : A → Bool) (xs : List A) → (any p xs ≡ true) ↔ (count p xs ≢ 0)
  any-count p [] = ground arith
  any-count p (x ∷ xs) = ground (arith, any-count p xs)

  abbrev pub head? : List A → Option A
  head? [] = none
  head? (x ∷ xs) = some x

  pub length-append : (xs ys : List A) → length (xs ++ ys) ≡ length xs + length ys
  length-append [] ys = omega arith
  length-append (x ∷ xs) ys = omega (arith, length-append xs ys)

module _ {ℓ} {A : Type ℓ} where
  pub length-map {κ} : {B : Type κ} (f : A → B) (xs : List A) → length (map f xs) ≡ length xs
  length-map f [] = refl
  length-map f (x ∷ xs) = ground (arith, length-map f xs)

module _ {ℓ} {A : Type ℓ} ⦃e : StrictEquality A⦄ where
  -- `includes`, or `has` of a set.
  abbrev pub contains : List A → A → Bool
  contains [] a = false
  contains (x ∷ xs) a = x == a || contains xs a

module _ {ℓ κ} {A : Type ℓ} (P : A → Type κ) where
  abbrev pub All : List A → Type κ
  All [] = Unit
  All (x ∷ xs) = P x × All xs

module _ {ℓ} {A : Type ℓ} where
  pub count-eq-length :
      (p : A → Bool) (xs : List A) → (count p xs ≡ length xs) ↔ All (λ x. p x ≡ true) xs
  count-eq-length p [] = ground arith
  count-eq-length p (x ∷ xs) = ground (arith, count-eq-length p xs, count-le-length p xs)

  pub count-eq-zero : (p : A → Bool) (xs : List A) → (count p xs ≡ 0) ↔ All (λ x. p x ≡ false) xs
  count-eq-zero p [] = ground arith
  count-eq-zero p (x ∷ xs) = ground (arith, count-eq-zero p xs)

  pub All-mono {κ μ} :
      (P : A → Type κ) (Q : A → Type μ)
      → ((x : A) → P x → Q x)
      → (xs : List A) → All P xs
      → All Q xs
  All-mono P Q f [] h = tt
  All-mono P Q f (x ∷ xs) (p, h) = (f x p, All-mono P Q f xs h)

  pub All-snoc {κ} : (P : A → Type κ) (x : A) (xs : List A) → All P xs → P x → All P (xs ++ x ∷ [])
  All-snoc P x [] h p = (p, tt)
  All-snoc P x (y ∷ xs) (q, h) p = (q, All-snoc P x xs h p)
