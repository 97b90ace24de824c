-- ===== src/Policy/Number/Hundredths.antt =====
-- Numbers in hundredths, at which the theorems about the policies are run.
use examples_service.Common.{ℕ, ◌+◌, ◌*◌, ◌/◌, leb, ltb, arith}
use examples_service.Policy.Number.{Number, IsOrdered}

abbrev pub hundredths : Number
hundredths = record {
  Carrier = ℕ;
  of_ℕ = λ n. n * 100;
  half = 50;
  one = 100;
  ge = λ a b. leb b a;
  lt = λ a b. ltb a b;
  mul = λ a b. a * b / 100;
  div = λ a b. a * 100 / b;
  ceil = λ a. (a + 99) / 100;
  to_fixed = λ a. "a number";
  show = λ a. "a number";
}

pub hundredths-IsOrdered : IsOrdered hundredths
hundredths-IsOrdered = record { not-lt-of_ge = λ a b h. ground arith; zero-div = λ n. ground arith }
