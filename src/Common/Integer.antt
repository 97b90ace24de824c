-- ===== src/Common/Integer.antt =====
-- The integers that a number of JavaScript stands for, and what `| 0`, `%` and `Math.abs` make of
-- them.
use Prim.Native.Nat.{ℕ, zero, suc, ◌+◌, ◌-◌, ◌*◌, ◌%◌}
use mathlib.Core.Path.{◌≡◌, refl}
use examples_service.Common.Tests.{ltb, if◌then◌else◌}
use examples_service.Common.Text.{show_ℕ}
use Prim.Native.String.{String, ◌++◌ as ◌<>◌}

-- `negsuc n` is -(n + 1).
pub data ℤ : Type 0 where
  pos negsuc : ℕ → ℤ

abbrev pub neg : ℕ → ℤ
neg zero = pos zero
neg (suc n) = negsuc n

infixl 6 ◌+ℤ◌
infixl 7 ◌*ℤ◌
abbrev pub ◌+ℤ◌ : ℤ → ℤ → ℤ
pos a +ℤ pos b = pos (a + b)
pos a +ℤ negsuc b = if ltb b a then pos (a - suc b) else negsuc (b - a)
negsuc a +ℤ pos b = if ltb a b then pos (b - suc a) else negsuc (a - b)
negsuc a +ℤ negsuc b = negsuc (suc (a + b))

abbrev pub ◌*ℤ◌ : ℤ → ℤ → ℤ
pos a *ℤ pos b = pos (a * b)
pos a *ℤ negsuc b = neg (a * suc b)
negsuc a *ℤ pos b = neg (suc a * b)
negsuc a *ℤ negsuc b = pos (suc a * suc b)

abbrev pub size : ℤ → ℕ
size (pos n) = n
size (negsuc n) = suc n

abbrev pub abs : ℤ → ℤ
abs (pos n) = pos n
abs (negsuc n) = pos (suc n)

-- `a % n`, which has the sign of `a`.
abbrev pub remainder : ℤ → ℕ → ℤ
remainder (pos a) n = pos (a % n)
remainder (negsuc a) n = neg (suc a % n)

-- The residue of 32 bits, and the signed integer that has it.
abbrev pub residue : ℤ → ℕ
residue (pos n) = n % 0x100000000
residue (negsuc n) = 0xffffffff - n % 0x100000000

abbrev pub signed : ℕ → ℤ
signed r = if ltb r 0x80000000 then pos r else negsuc (0xffffffff - r)

-- `a | 0`
abbrev pub to_int32 : ℤ → ℤ
to_int32 a = signed (residue a)

-- `String(a)`
abbrev pub show_ℤ : ℤ → String
show_ℤ (pos n) = show_ℕ n
show_ℤ (negsuc n) = "-" <> show_ℕ (suc n)

cut : to_int32 (pos 0xffffffff) ≡ negsuc 0
cut = refl

sum : negsuc 4 *ℤ pos 31 +ℤ pos 65 ≡ negsuc 89
sum = refl
