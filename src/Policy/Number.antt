-- ===== src/Policy/Number.antt =====
-- The floating-point numbers of a policy, as the strategy uses them: a type with the operations
-- that it calls, and what the proofs rely on of IEEE 754.
pub mod Hundredths
use examples_service.Common.{ℕ, suc, Bool, true, false, ◌≡◌, String}

pub record Number : Type 1 where
  pub Carrier : Type 0
  pub of_ℕ : ℕ → Carrier
  pub half : Carrier
  pub one : Carrier
  -- `a >= b` and `a < b`; both are false where one side is NaN.
  pub ge : Carrier → Carrier → Bool
  pub lt : Carrier → Carrier → Bool
  pub mul : Carrier → Carrier → Carrier
  pub div : Carrier → Carrier → Carrier
  -- `Math.ceil` of a finite number, 0 where that is negative.
  pub ceil : Carrier → ℕ
  -- `x.toFixed(0)` and `String(x)`
  pub to_fixed : Carrier → String
  pub show : Carrier → String

-- The comparisons exclude one another, and nothing divided by a positive number is nothing.
pub record IsOrdered (F : Number) : Type 0 where
  pub not-lt-of_ge : (a b : F.Carrier) → F.ge a b ≡ true → F.lt a b ≡ false
  pub zero-div : (n : ℕ) → F.div (F.of_ℕ 0) (F.of_ℕ (suc n)) ≡ F.of_ℕ 0
