-- ===== src/Compiler/Substitute/Placeholder/Length.antt =====
-- How many characters the match of a placeholder takes.
use native.Mathlib.Nat.{zero-add}
use examples_service.Common.Words.{spaces}
use examples_service.Common.{
  ℕ, suc, ◌+◌, String, Option, none, some, ◌≡◌, refl, ap, sym, ◌∙◌, arith, nat_eq,
}
use examples_service.Compiler.Substitute.Placeholder.{
  literal, path_chars, nonempty, placeholder_at, ◌>>=◌,
}

-- The number of the characters of a text.
abbrev pub text_length : String → ℕ
text_length String.[] = 0
text_length (String.◌∷◌ c s) = suc (text_length s)

-- What a part has taken and what it leaves make up the text.
literal_lem :
    (c n : ℕ) (s r : String) (m : ℕ)
    → literal c n s ≡ some (r, m)
    → m + text_length r ≡ n + text_length s
unfolding literal
literal_lem c n String.[] r m h = absurd (ground arith)
literal_lem c n (String.◌∷◌ d s) r m h = ground arith

spaces_lem : (n : ℕ) (s : String) → (spaces n s).1 + text_length (spaces n s).0 ≡ n + text_length s
unfolding spaces
spaces_lem n String.[] = refl
spaces_lem n (String.◌∷◌ d s) = ground (arith, spaces_lem (suc n) s)

path_chars_lem :
    (n : ℕ) (s : String) → (path_chars n s).2 + text_length (path_chars n s).1 ≡ n + text_length s
unfolding path_chars
path_chars_lem n String.[] = refl
path_chars_lem n (String.◌∷◌ d s) = ground (arith, path_chars_lem (suc n) s)

nonempty_lem : (x y : String × String × ℕ) → nonempty x ≡ some y → x ≡ y
nonempty_lem (String.[], rest, n) y h = absurd (ground arith)
nonempty_lem (String.◌∷◌ c path, rest, n) y h = cc

bind_some {ℓ κ} :
    {A : Type ℓ} {B : Type κ} (o : Option A) (f : A → Option B) (b : B)
    → (o >>= f) ≡ some b
    → (a : A) × (o ≡ some a) × (f a ≡ some b)
bind_some none f b h = absurd (ground arith)
bind_some (some a) f b h = (a, refl, h)

-- A part of the match that goes on from a text takes what it leaves less.
abbrev Takes : ℕ → String → Option (String × String × ℕ) → Type 0
Takes n s o =
    (path r : String) (m : ℕ) → o ≡ some (path, r, m) → m + text_length r ≡ n + text_length s

literal-Takes :
    (c n : ℕ) (s : String) (f : String × ℕ → Option (String × String × ℕ))
    → ((r : String) (m : ℕ) → Takes m r (f (r, m)))
    → Takes n s (literal c n s >>= f)
literal-Takes c n s f k path r m h =
    let ((s1, n1), e, g) = bind_some (literal c n s) f (path, r, m) h in
    k s1 n1 path r m g ∙ literal_lem c n s s1 n1 e

path-Takes :
    (n : ℕ) (s : String) (f : String × String × ℕ → Option (String × String × ℕ))
    → ((p r : String) (m : ℕ) → Takes m r (f (p, r, m)))
    → Takes n s (nonempty (path_chars n s) >>= f)
path-Takes n s f k path r m h =
    let ((p, s1, n1), e, g) = bind_some (nonempty (path_chars n s)) f (path, r, m) h in
    k p s1 n1 path r m g
    ∙ ap (λ (x : String × String × ℕ). x.2 + text_length x.1)
        (sym (nonempty_lem (path_chars n s) (p, s1, n1) e))
    ∙ path_chars_lem n s

spaces-Takes :
    (n : ℕ) (s : String) (o : Option (String × String × ℕ))
    → Takes (spaces n s).1 (spaces n s).0 o
    → Takes n s o
spaces-Takes n s o k path r m h = k path r m h ∙ spaces_lem n s

same_of_some {ℓ} : {A : Type ℓ} {a b : A} → some a ≡ some b → a ≡ b
same_of_some h = cc

end-Takes : (p s : String) (n : ℕ) → Takes n s (some (p, s, n))
end-Takes p s n path r m h =
    ap (λ (x : String × String × ℕ). x.2 + text_length x.1) (sym (same_of_some h))

-- The length of a match and of what it leaves make up the text.
pub placeholder_length :
    (s path rest : String) (n : ℕ)
    → placeholder_at s ≡ some (path, rest, n)
    → n + text_length rest ≡ text_length s
unfolding placeholder_at
placeholder_length s path rest n h =
    literal-Takes b'{' 0 s _
      (λ s1 n1. literal-Takes b'{' n1 s1 _ (λ s2 n2. spaces-Takes n2 s2 _ (
        path-Takes (spaces n2 s2).1 (spaces n2 s2).0 _ (λ p s4 n4. spaces-Takes n4 s4 _ (
          literal-Takes b'}' (spaces n4 s4).1 (spaces n4 s4).0 _
            (λ s6 n6. literal-Takes b'}' n6 s6 _ (λ s7 n7. end-Takes p s7 n7)))))))
      path rest n h
    ∙ zero-add (text_length s)
