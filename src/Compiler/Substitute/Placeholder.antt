-- ===== src/Compiler/Substitute/Placeholder.antt =====
-- A placeholder, `{{ path }}`: what `\{\{\s*([a-zA-Z0-9_.\-]+)\s*\}\}` matches at a place of a text.
pub mod Length
use Prim.Native.Char.{code}
use examples_service.Common.Words.{spaces}
use examples_service.Common.{ℕ, suc, String, Bool, ◌&&◌, ◌||◌, Option, none, some}
use examples_service.Common.{◌≡◌, refl, leb, ◌==◌, nat_eq, if◌then◌else◌}

-- `[a-zA-Z0-9_.\-]`
is_path_char : ℕ → Bool
is_path_char c =
    leb b'a' c && leb c b'z'
    || leb b'A' c && leb c b'Z'
    || leb b'0' c && leb c b'9'
    || c == b'_'
    || c == b'.'
    || c == b'-'

-- Each part of the match gives the rest of the text and how many characters it took. The classes of
-- the parts are disjoint, so that there is nothing to backtrack to.
literal : ℕ → ℕ → String → Option (String × ℕ)
literal c n String.[] = none
literal c n (String.◌∷◌ d s) = if code d == c then some (s, suc n) else none

path_chars : ℕ → String → String × String × ℕ
path_chars n String.[] = ("", "", n)
path_chars n (String.◌∷◌ d s) =
    let (path, rest, m) = path_chars (suc n) s in
    if is_path_char (code d) then (String.◌∷◌ d path, rest, m) else ("", String.◌∷◌ d s, n)

infixl 5 ◌>>=◌
abbrev ◌>>=◌ {κ μ} : {X : Type κ} {Y : Type μ} → Option X → (X → Option Y) → Option Y
some found >>= next = next found
none >>= next = none

-- `+` wants one character at least.
abbrev nonempty : String × String × ℕ → Option (String × String × ℕ)
nonempty (String.[], rest, n) = none
nonempty (String.◌∷◌ c path, rest, n) = some (String.◌∷◌ c path, rest, n)

-- The path of the placeholder that the text begins with, the rest of the text, and the length of the
-- match.
unfoldable pub placeholder_at : String → Option (String × String × ℕ)
unfolding literal spaces path_chars is_path_char
placeholder_at s = do
  (s1, n1) ← literal b'{' 0 s
  (s2, n2) ← literal b'{' n1 s1
  let (s3, n3) = spaces n2 s2
  (path, s4, n4) ← nonempty (path_chars n3 s3)
  let (s5, n5) = spaces n4 s4
  (s6, n6) ← literal b'}' n5 s5
  (s7, n7) ← literal b'}' n6 s6
  some (path, s7, n7)

placeholder_test : placeholder_at "{{ inputs.a-b }}!" ≡ some ("inputs.a-b", "!", 16)
unfolding placeholder_at
placeholder_test = refl
