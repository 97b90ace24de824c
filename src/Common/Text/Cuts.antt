-- ===== src/Common/Text/Cuts.antt =====
-- Cutting a text at a character, and joining the two sides again.
use Prim.Native.Char.{Char, code}
use Prim.Native.String.{String, ◌++◌ as ◌<>◌}
use Prim.Native.Nat.{ℕ}
use mathlib.Core.Path.{◌≡◌, refl, ap, sym}
use mathlib.Core.Logic.{◌≢◌, inl, inr}
use mathlib.Core.Bool.{true, false}
use mathlib.Core.Option.{Option, none, some}
use native.Mathlib.Omega.{arith}
use text.Mathlib.TextLemmas.{nil-append, cons-append}
use text.Mathlib.TextEquality.{Char-path}
use examples_service.Common.Tests.{◌==◌, nat_eq, Bool-cases, Option-cases}
use examples_service.Common.Text.{cut_first, cut_last, Lacks}

code_eq : {m n : ℕ} → (m == n) ≡ true → m ≡ n
code_eq h = ground arith

code_ne : {m n : ℕ} → (m == n) ≡ false → m ≢ n
code_ne h = ground arith

cut_here :
    (d : Char) (s a b : String)
    → ◌≡◌ {A = Option (String × String)} (some ("", s)) (some (a, b))
    → ("" ≡ a) × (s ≡ b)
cut_here d s a b h = ground arith

cut_later :
    (d : Char) (a' b' a b : String)
    → ◌≡◌ {A = Option (String × String)} (some (String.◌∷◌ d a', b')) (some (a, b))
    → (String.◌∷◌ d a' ≡ a) × (b' ≡ b)
cut_later d a' b' a b h = ground arith

some_later : {p : String × String} → ◌≡◌ {A = Option (String × String)} (some p) none → ⊥
some_later h = cc

none_later : {a b : String} → ◌≡◌ {A = Option (String × String)} none (some (a, b)) → ⊥
none_later h = cc

module _ (c : Char) where
  pub cut_first-append :
      (a b : String) → Lacks c a → cut_first c (a <> String.◌∷◌ c b) ≡ some (a, b)
  unfolding cut_first
  cut_first-append String.[] b h = rw nil-append (ground arith)
  cut_first-append (String.◌∷◌ d a) b (n, h) =
      rw (cons-append, cut_first) (rw (cut_first-append a b h) (ground arith))

  pub cut_last_of_Lacks : (b : String) → Lacks c b → cut_last c b ≡ none
  unfolding cut_last
  cut_last_of_Lacks String.[] h = refl
  cut_last_of_Lacks (String.◌∷◌ d b) (n, h) = rw (cut_last_of_Lacks b h) (ground arith)

  pub cut_last-append : (a b : String) → Lacks c b → cut_last c (a <> String.◌∷◌ c b) ≡ some (a, b)
  unfolding cut_last
  cut_last-append String.[] b h =
      rw nil-append (rw (cut_last_of_Lacks b h, cut_last) (ground arith))
  cut_last-append (String.◌∷◌ d a) b h = rw cons-append (rw (cut_last-append a b h, cut_last) refl)

  pub cut_first_sound :
      (s a b : String) → cut_first c s ≡ some (a, b) → (s ≡ a <> String.◌∷◌ c b) × Lacks c a
  unfolding cut_first
  cut_first_sound String.[] a b h = ground arith
  cut_first_sound (String.◌∷◌ d s) a b h = elim (Bool-cases (code d == code c)) [
    | inl here ↦
        let (e, f) = cut_here d s a b (rw here at h) in
        rw (← e, ← f, Char-path d c (code_eq here)) (sym (nil-append _), tt)
    | inr later ↦ elim (Option-cases (cut_first c s)) [
      | inl missing ↦ absurd (none_later (rw (later, missing) at h))
      | inr ((a', b'), found) ↦
          let (e, f) = cut_later d a' b' a b (rw (later, found) at h) in
          let (path, lacks) = cut_first_sound s a' b' found in
          rw (← e, ← f, cons-append) (ap (String.◌∷◌ d) path, (code_ne later, lacks))
    ]
  ]

  Lacks-of_cut_last : (b : String) → cut_last c b ≡ none → Lacks c b
  unfolding cut_last
  Lacks-of_cut_last String.[] h = tt
  Lacks-of_cut_last (String.◌∷◌ d b) h = elim (Option-cases (cut_last c b)) [
    | inr (cut, found) ↦ absurd (some_later (rw found at h))
    | inl missing ↦ elim (Bool-cases (code d == code c)) [
      | inl here ↦ absurd (some_later (rw (missing, here) at h))
      | inr other ↦ (code_ne other, Lacks-of_cut_last b missing)
    ]
  ]

  pub cut_last_sound :
      (s a b : String) → cut_last c s ≡ some (a, b) → (s ≡ a <> String.◌∷◌ c b) × Lacks c b
  unfolding cut_last
  cut_last_sound String.[] a b h = ground arith
  cut_last_sound (String.◌∷◌ d s) a b h = elim (Option-cases (cut_last c s)) [
    | inr ((a', b'), found) ↦
        let (e, f) = cut_later d a' b' a b (rw found at h) in
        let (path, lacks) = cut_last_sound s a' b' found in
        rw (← e, ← f, cons-append) (ap (String.◌∷◌ d) path, lacks)
    | inl missing ↦ elim (Bool-cases (code d == code c)) [
      | inl here ↦
          let (e, f) = cut_here d s a b (rw (missing, here) at h) in
          rw (← e, ← f, Char-path d c (code_eq here))
            (sym (nil-append _), Lacks-of_cut_last s missing)
      | inr other ↦ absurd (none_later (rw (missing, other) at h))
    ]
  ]
