-- ===== src/Common/Text.antt =====
-- Texts as JavaScript reads them, over code points.
pub mod Cuts
use mathlib.Core.Option
use mathlib.Core.Option.{Option, none, some}
use mathlib.Core.Logic.{◌≢◌}
use Prim.Native.Nat.{ℕ, zero, suc, ◌-◌, ◌+◌, ◌/◌, ◌%◌}
use Prim.Native.Char.{Char, code}
use Prim.Native.String.{String, ◌++◌ as ◌<>◌}
use mathlib.Core.List.{List, [], ◌∷◌}
use mathlib.Core.Path.{◌≡◌, refl}
use mathlib.Core.Bool.{Bool, true, false, ◌&&◌, ◌||◌}
use native.Mathlib.Omega.{arith}
use examples_service.Common.Tests.{leb, ltb, ◌==◌, nat_eq, if◌then◌else◌}

-- The truth value of a text: false exactly at the empty one.
abbrev pub truthy : String → Bool
truthy String.[] = false
truthy (String.◌∷◌ c s) = true

abbrev pub codes : String → List ℕ
codes String.[] = []
codes (String.◌∷◌ c s) = code c ∷ codes s

-- The code units of a character.
abbrev pub unit_list : ℕ → List ℕ → List ℕ
unit_list c rest =
    if ltb c 0x10000
    then c ∷ rest
    else (0xd800 + (c - 0x10000) / 0x400) ∷ (0xdc00 + (c - 0x10000) % 0x400) ∷ rest

unfoldable pub code_units : List ℕ → List ℕ
code_units [] = []
code_units (c ∷ cs) = unit_list c (code_units cs)

-- The text of the character at a place, or the empty text behind the end.
char_at : ℕ → String → String
char_at n String.[] = ""
char_at zero (String.◌∷◌ c s) = String.◌∷◌ c String.[]
char_at (suc n) (String.◌∷◌ c s) = char_at n s

-- `toUpperCase` of one character, as far as the result is ASCII: the letters, the dotless i, the
-- long s, the sharp s and the Latin ligatures. Any other character stands for itself.
upper_char : Char → String
upper_char c =
    if leb b'a' (code c) && leb (code c) b'z'
    then char_at (code c - b'a') "ABCDEFGHIJKLMNOPQRSTUVWXYZ"
    else if code c == 0x131
    then "I"
    else if code c == 0x17f
    then "S"
    else if code c == 0xdf
    then "SS"
    else if code c == 0xfb00
    then "FF"
    else if code c == 0xfb01
    then "FI"
    else if code c == 0xfb02
    then "FL"
    else if code c == 0xfb03
    then "FFI"
    else if code c == 0xfb04
    then "FFL"
    else if leb 0xfb05 (code c) && leb (code c) 0xfb06
    then "ST"
    else String.◌∷◌ c String.[]

-- `s.toUpperCase()`
unfoldable pub upper : String → String
unfolding upper_char char_at
upper String.[] = ""
upper (String.◌∷◌ c s) = upper_char c <> upper s

lower_code : ℕ → ℕ
lower_code c = if leb b'A' c && leb c b'Z' then c + 32 else c

starts_ignoring_case : List ℕ → List ℕ → Bool
unfolding lower_code
starts_ignoring_case [] t = true
starts_ignoring_case (a ∷ s) [] = false
starts_ignoring_case (a ∷ s) (b ∷ t) = lower_code a == lower_code b && starts_ignoring_case s t

-- `/word/i.test(text)`, for a word of ASCII letters.
unfoldable pub includes_ignoring_case : List ℕ → List ℕ → Bool
unfolding starts_ignoring_case
includes_ignoring_case word [] = starts_ignoring_case word []
includes_ignoring_case word (b ∷ t) =
    starts_ignoring_case word (b ∷ t) || includes_ignoring_case word t

-- The text before and behind the first place of a character: `indexOf` and two slices.
unfoldable pub cut_first : Char → String → Option (String × String)
cut_first c String.[] = none
cut_first c (String.◌∷◌ d s) =
    if code d == code c
    then some ("", s)
    else Option.map (λ (a, b). (String.◌∷◌ d a, b)) (cut_first c s)

-- The text before and behind the last place of a character: `lastIndexOf` and two slices.
unfoldable pub cut_last : Char → String → Option (String × String)
cut_last c String.[] = none
cut_last c (String.◌∷◌ d s) = elim (cut_last c s) [
  | some (a, b) ↦ some (String.◌∷◌ d a, b)
  | none ↦ if code d == code c then some ("", s) else none
]

push_first : Char → List String → List String
push_first d [] = String.◌∷◌ d String.[] ∷ []
push_first d (p ∷ ps) = String.◌∷◌ d p ∷ ps

-- `s.split(c)`
unfoldable pub split : Char → String → List String
unfolding push_first
split c String.[] = "" ∷ []
split c (String.◌∷◌ d s) =
    let rest = split c s in if code d == code c then "" ∷ rest else push_first d rest

-- The character occurs nowhere in the text.
abbrev pub Lacks : Char → String → Type 0
Lacks c String.[] = Unit
Lacks c (String.◌∷◌ d s) = (code d ≢ code c) × Lacks c s

digit : ℕ → String
digit n = char_at n "0123456789"

digits_of : ℕ → ℕ → String → String
digits_of zero n tail = tail
digits_of (suc fuel) n tail =
    let more = digits_of fuel (n / 10) (digit (n % 10) <> tail) in
    if leb n 9 then digit n <> tail else more

-- A natural number in decimal; it has no more digits than its value and one.
unfoldable pub show_ℕ : ℕ → String
unfolding digits_of digit char_at
show_ℕ n = digits_of (suc n) n ""
