-- ===== src/Common/Words.antt =====
-- Lower case, white space and suffixes of texts, as JavaScript has them.
use Prim.Native.Char.{Char, code}
use Prim.Native.Nat.{ℕ, suc, ◌+◌}
use Prim.Native.String.{String}
use mathlib.Core.Bool.{Bool, ◌&&◌, ◌||◌}
use mathlib.Core.Option.{Option, none, some}
use examples_service.Common.Tests.{leb, ◌==◌, nat_eq, string_eq, if◌then◌else◌}

-- `toLowerCase`, as far as ASCII goes.
lower_char : Char → Char → Char
lower_char lowered c = if leb b'A' (code c) && leb (code c) b'Z' then lowered else c

letter_at : ℕ → String → Char → Char
letter_at n String.[] c = c
letter_at n (String.◌∷◌ d s) c = let rest = letter_at n s c in if code d == n then d else rest

unfoldable pub lower : String → String
unfolding lower_char letter_at
lower String.[] = ""
lower (String.◌∷◌ c s) =
    String.◌∷◌ (lower_char (letter_at (code c + 32) "abcdefghijklmnopqrstuvwxyz" c) c) (lower s)

-- The white space that `trim` takes away, and that `\s` matches.
abbrev pub is_space : ℕ → Bool
is_space c =
    (leb 9 c && leb c 13)
    || c == 0x20
    || c == 0xa0
    || c == 0x1680
    || (leb 0x2000 c && leb c 0x200a)
    || c == 0x2028
    || c == 0x2029
    || c == 0x202f
    || c == 0x205f
    || c == 0x3000
    || c == 0xfeff

-- The text without its leading white space, and the number of characters before it, which are counted
-- from a given number on.
unfoldable pub spaces : ℕ → String → String × ℕ
spaces n String.[] = ("", n)
spaces n (String.◌∷◌ c s) =
    let more = spaces (suc n) s in if is_space (code c) then more else (String.◌∷◌ c s, n)

unfoldable pub trim_start : String → String
trim_start String.[] = ""
trim_start (String.◌∷◌ c s) =
    let rest = trim_start s in if is_space (code c) then rest else String.◌∷◌ c s

cons_trimmed : Char → String → String
cons_trimmed c String.[] = if is_space (code c) then "" else String.◌∷◌ c String.[]
cons_trimmed c (String.◌∷◌ d s) = String.◌∷◌ c (String.◌∷◌ d s)

unfoldable pub trim_end : String → String
unfolding cons_trimmed
trim_end String.[] = ""
trim_end (String.◌∷◌ c s) = cons_trimmed c (trim_end s)

abbrev pub trim : String → String
trim s = trim_end (trim_start s)

-- The text before the suffix, where the text ends with it.
unfoldable pub before_suffix : String → String → Option String
before_suffix suffix String.[] = if suffix == "" then some "" else none
before_suffix suffix (String.◌∷◌ c s) = elim (before_suffix suffix s) [
  | some t ↦ some (String.◌∷◌ c t)
  | none ↦ if String.◌∷◌ c s == suffix then some "" else none
]
