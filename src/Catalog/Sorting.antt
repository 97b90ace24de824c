-- ===== src/Catalog/Sorting.antt =====
-- `sort` of JavaScript on texts, as src/catalog/catalog.service.ts uses it.
use examples_service.Common.{
  String, true, ◌||◌, ◌≡◌, refl, Option, none, some, List, [], ◌∷◌, arith, contains, ◌==◌,
  string_eq, Bool-cases, inl, inr, ◌⊎◌, sym, ◌∙◌, if◌then◌else◌,
}
use text.Mathlib.TextEquality.{eq_iff}
use examples_service.Common.Text.{codes, code_units}
use examples_service.Common.Order.{lex_leb, text_leb, lex_refl, text_leb_total, text_leb_trans}

abbrev placed : String → String → List String → List String → List String
placed t u us rest = if text_leb t u then t ∷ u ∷ us else u ∷ rest

unfoldable pub insert_text : String → List String → List String
unfolding lex_leb code_units
insert_text t [] = t ∷ []
insert_text t (u ∷ us) = placed t u us (insert_text t us)

unfoldable pub sort : List String → List String
unfolding insert_text
sort [] = []
sort (t ∷ ts) = insert_text t (sort ts)

unfoldable pub last_of : List String → Option String
last_of [] = none
last_of (t ∷ []) = some t
last_of (t ∷ u ∷ us) = last_of (u ∷ us)

pub contains-insert_text :
    (t : String) (ts : List String) (w : String)
    → contains (insert_text t ts) w ≡ ((t == w) || contains ts w)
unfolding insert_text lex_leb
contains-insert_text t [] w = ground arith
contains-insert_text t (u ∷ us) w = elim (Bool-cases (text_leb t u)) [
  | inl e ↦ rw e refl
  | inr e ↦ rw e (ground (arith, contains-insert_text t us w))
]

pub contains-sort : (ts : List String) (w : String) → contains (sort ts) w ≡ contains ts w
unfolding sort
contains-sort [] w = refl
contains-sort (t ∷ ts) w = ground (arith, contains-insert_text t (sort ts) w, contains-sort ts w)

-- A text is at most each of a list.
abbrev Below : String → List String → Type 0
Below t ts = (w : String) → contains ts w ≡ true → text_leb t w ≡ true

abbrev IsSorted : List String → Type 0
IsSorted [] = Unit
IsSorted (t ∷ ts) = Below t ts × IsSorted ts

insert_text-IsSorted : (t : String) (ts : List String) → IsSorted ts → IsSorted (insert_text t ts)
unfolding insert_text lex_leb
insert_text-IsSorted t [] s = ((λ w h. absurd (ground arith)), tt)
insert_text-IsSorted t (u ∷ us) (below, s) = elim (Bool-cases (text_leb t u)) [
  | inl e ↦ rw e ((λ w h. ground (arith, below w, text_leb_trans t u w, eq_iff u w)), (below, s))
  | inr e ↦ rw e (
    (λ w h. ground (arith, contains-insert_text t us w, below w, eq_iff t w, text_leb_total t u)),
    insert_text-IsSorted t us s,
  )
]

sort-IsSorted : (ts : List String) → IsSorted (sort ts)
unfolding sort
sort-IsSorted [] = tt
sort-IsSorted (t ∷ ts) = insert_text-IsSorted t (sort ts) (sort-IsSorted ts)

-- The last text of a list that is in order.
abbrev pub Greatest : List String → String → Type 0
Greatest ts v = (contains ts v ≡ true) × ((w : String) → contains ts w ≡ true → text_leb w v ≡ true)

last-Greatest :
    (t : String) (ts : List String)
    → IsSorted (t ∷ ts)
    → (v : String) × (last_of (t ∷ ts) ≡ some v) × Greatest (t ∷ ts) v
unfolding last_of lex_leb
last-Greatest t [] s = (
  t,
  refl,
  (ground (arith, eq_iff t t), λ w h. ground (arith, eq_iff t w, lex_refl (code_units (codes t)))),
)
last-Greatest t (u ∷ us) (below, s) =
    let (v, e, (there, greatest)) = last-Greatest u us s in
    (v, e, (ground arith, λ w h. ground (arith, below v there, greatest w, eq_iff t w)))

Greatest-of :
    (xs ts : List String) (v : String)
    → ((w : String) → contains xs w ≡ contains ts w)
    → Greatest xs v
    → Greatest ts v
Greatest-of xs ts v same (there, greatest) = (sym (same v) ∙ there, λ w h. greatest w (same w ∙ h))

last_of_sorted :
    (xs : List String)
    → IsSorted xs
    → (xs ≡ []) ⊎ ((v : String) × (last_of xs ≡ some v) × Greatest xs v)
last_of_sorted [] s = inl refl
last_of_sorted (t ∷ ts) s = inr (last-Greatest t ts s)

insert_text-nonempty : (t : String) (ts : List String) → insert_text t ts ≡ [] → ⊥
unfolding insert_text lex_leb
insert_text-nonempty t [] h = ground arith
insert_text-nonempty t (u ∷ us) h = ground arith

-- The text that is last after sorting is the greatest one, where there is any.
pub last_of-sort :
    (t : String) (ts : List String)
    → (v : String) × (last_of (sort (t ∷ ts)) ≡ some v) × Greatest (t ∷ ts) v
unfolding sort
last_of-sort t ts = elim (last_of_sorted (sort (t ∷ ts)) (sort-IsSorted (t ∷ ts))) [
  | inl e ↦ absurd (insert_text-nonempty t (sort ts) e)
  | inr (v, e, g) ↦ (v, e, Greatest-of (sort (t ∷ ts)) (t ∷ ts) v (contains-sort (t ∷ ts)) g)
]
