-- ===== src/Float.antt =====
-- The f64 arithmetic that alarm.rs, counters.rs and config.rs use, as an interface: the operations,
-- and what IEEE 754 says of them for counts (a correctly rounded quotient is monotone). A client
-- takes an implementation as a parameter; `exact` is one, by fractions without rounding.
use docsis_monitor.Base.{
  ℕ, ltb, leb, tests, Text, decimal, ◌+◌, ◌*◌, ◌/◌, ◌≤◌, ◌<◌, ◌≡◌, Bool, true,
}

pub record Floats : Type 1 where
  pub F : Type 0
  -- `n as f64`, and so the literals 0.0, 1.0 and 100.0.
  pub of_u64 : ℕ → F
  pub div : F → F → F
  pub mul : F → F → F
  pub lt : F → F → Bool
  pub le : F → F → Bool
  -- The literal 0.75.
  pub three_quarters : F
  -- `{:.0}` and `{}`.
  pub format_whole : F → Text
  pub display : F → Text

-- A quotient of counts does not fall when the dividend grows, and does not grow when the divisor
-- does.
pub record IsMonotone (f : Floats) : Type 0 where
  pub dividend :
      (a b r : ℕ) (m : f.F)
      → a ≤ b
      → 0 < r
      → f.lt (f.div (f.of_u64 b) (f.of_u64 r)) m ≡ true
      → f.lt (f.div (f.of_u64 a) (f.of_u64 r)) m ≡ true
  pub divisor :
      (a r s : ℕ) (m : f.F)
      → 0 < r
      → r ≤ s
      → f.lt (f.div (f.of_u64 a) (f.of_u64 r)) m ≡ true
      → f.lt (f.div (f.of_u64 a) (f.of_u64 s)) m ≡ true

-- Fractions as a numerator and a denominator.
abbrev pub exact : Floats
exact = record {
  F = ℕ × ℕ;
  of_u64 = λ n. (n, 1);
  div = λ a b. (a.0 * b.1, a.1 * b.0);
  mul = λ a b. (a.0 * b.0, a.1 * b.1);
  lt = λ a b. ltb (a.0 * b.1) (b.0 * a.1);
  le = λ a b. leb (a.0 * b.1) (b.0 * a.1);
  three_quarters = (3, 4);
  format_whole = λ a. decimal ((a.0 + a.1 / 2) / a.1);
  display = λ a. decimal (a.0 / a.1);
}

exact_dividend :
    (a b r n d : ℕ)
    → a ≤ b
    → ltb (b * 1 * d) (n * (1 * r)) ≡ true
    → ltb (a * 1 * d) (n * (1 * r)) ≡ true
exact_dividend a b r n d h e = grind tests

exact_divisor :
    (a r s n d : ℕ)
    → r ≤ s
    → ltb (a * 1 * d) (n * (1 * r)) ≡ true
    → ltb (a * 1 * d) (n * (1 * s)) ≡ true
exact_divisor a r s n d h e = grind tests

pub exact-IsMonotone : IsMonotone exact
exact-IsMonotone = record {
  dividend = λ a b r m h _ e. exact_dividend a b r m.0 m.1 h e;
  divisor = λ a r s m _ h e. exact_divisor a r s m.0 m.1 h e;
}
