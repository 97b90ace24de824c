-- ===== src/Common/Order.antt =====
-- The order of texts that `sort` and `<` of JavaScript go by: that of their code units.
use Prim.Native.Nat.{ℕ}
use Prim.Native.String.{String}
use mathlib.Core.Path.{◌≡◌, refl}
use mathlib.Core.Bool.{Bool, true, false}
use mathlib.Core.List.{List, [], ◌∷◌}
use native.Mathlib.Omega.{arith}
use examples_service.Common.Tests.{ltb, if◌then◌else◌}
use examples_service.Common.Text.{codes, code_units}

unfoldable pub lex_leb : List ℕ → List ℕ → Bool
lex_leb [] ys = true
lex_leb (x ∷ xs) [] = false
lex_leb (x ∷ xs) (y ∷ ys) =
    let rest = lex_leb xs ys in if ltb x y then true else if ltb y x then false else rest

abbrev pub text_leb : String → String → Bool
text_leb s t = lex_leb (code_units (codes s)) (code_units (codes t))

pub lex_refl : (xs : List ℕ) → lex_leb xs xs ≡ true
unfolding lex_leb
lex_refl [] = refl
lex_refl (x ∷ xs) = ground (arith, lex_refl xs)

lex_total : (xs ys : List ℕ) → lex_leb xs ys ≡ false → lex_leb ys xs ≡ true
unfolding lex_leb
lex_total [] ys h = absurd (ground arith)
lex_total (x ∷ xs) [] h = refl
lex_total (x ∷ xs) (y ∷ ys) h = ground (arith, lex_total xs ys)

lex_trans : (xs ys zs : List ℕ) → lex_leb xs ys ≡ true → lex_leb ys zs ≡ true → lex_leb xs zs ≡ true
unfolding lex_leb
lex_trans [] ys zs h g = refl
lex_trans (x ∷ xs) [] zs h g = absurd (ground arith)
lex_trans (x ∷ xs) (y ∷ ys) [] h g = absurd (ground arith)
lex_trans (x ∷ xs) (y ∷ ys) (z ∷ zs) h g = ground (arith, lex_trans xs ys zs)

pub text_leb_total : (s t : String) → text_leb s t ≡ false → text_leb t s ≡ true
unfolding lex_leb code_units
text_leb_total s t h = lex_total (code_units (codes s)) (code_units (codes t)) h

pub text_leb_trans :
    (s t u : String) → text_leb s t ≡ true → text_leb t u ≡ true → text_leb s u ≡ true
text_leb_trans s t u h g =
    lex_trans (code_units (codes s)) (code_units (codes t)) (code_units (codes u)) h g
