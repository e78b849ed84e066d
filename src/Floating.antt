-- ===== src/Floating.antt =====
-- The C `double` as an interface: the arithmetic that the source uses, and what it relies on of IEEE
-- 754. An integer literal is `of_u64`; a literal such as 0.95 is the correctly rounded quotient of 95
-- and 100.
pub mod Whole
use packet_analyzer.Prelude.{ℕ, ◌*◌, ◌^◌, ◌≤◌, ◌<◌, ◌≡◌, Bool, true, false}

pub record Floating : Type 1 where
  pub Double : Type 0
  pub of_u64 : ℕ → Double
  pub to_u64 : Double → ℕ
  pub add : Double → Double → Double
  pub sub : Double → Double → Double
  pub mul : Double → Double → Double
  pub div : Double → Double → Double
  pub neg : Double → Double
  pub lt : Double → Double → Bool
  pub infinity : Double
  -- Neither infinite nor a NaN.
  pub finite : Double → Bool

-- `a` is at most `b`, both finite: `a > b` is false.
pub record AtMost (F : Floating) (a b : F.Double) : Type 0 where
  pub finite_left : F.finite a ≡ true
  pub finite_right : F.finite b ≡ true
  pub not_above : F.lt b a ≡ false

-- Integers below 2^53 multiply exactly, and convert back.
abbrev pub MulExact : Floating → Type 0
MulExact F = (n k : ℕ) → n * k < 2 ^ 53 → F.to_u64 (F.mul (F.of_u64 n) (F.of_u64 k)) ≡ n * k

-- Comparison is an order on numbers. What rounding to nearest keeps: subtraction and division are monotone, on operands for which no
-- result is a NaN.
pub record Monotone (F : Floating) : Type 0 where
  pub lt_asym : (a b : F.Double) → F.lt a b ≡ true → F.lt b a ≡ false
  pub lt_trans : (a b c : F.Double) → F.lt a b ≡ true → F.lt b c ≡ true → F.lt a c ≡ true
  pub lt_of_le_of_lt : (a b c : F.Double) → AtMost F a b → F.lt b c ≡ true → F.lt a c ≡ true
  pub lt_of_lt_of_le : (a b c : F.Double) → F.lt a b ≡ true → AtMost F b c → F.lt a c ≡ true
  pub scaled_gap :
      (a b base : F.Double)
      → AtMost F a b
      → F.finite base ≡ true
      → F.lt (F.of_u64 0) base ≡ true
      → F.lt (F.div (F.sub b base) base) (F.div (F.sub a base) base) ≡ false

-- For a threshold that is not negative: scaling down by `1 - threshold` does not grow a positive
-- number, scaling up by `1 + threshold` does not shrink it, and for a threshold of at most 1 the
-- latter also holds for integers below 2^53 after conversion.
pub record Scaling (F : Floating) : Type 0 where
  pub shrink :
      (x t : F.Double)
      → F.lt (F.of_u64 0) x ≡ true
      → F.lt t (F.of_u64 0) ≡ false
      → F.lt x (F.mul x (F.sub (F.of_u64 1) t)) ≡ false
  pub grow :
      (x t : F.Double)
      → F.lt (F.of_u64 0) x ≡ true
      → F.lt t (F.of_u64 0) ≡ false
      → F.lt (F.mul x (F.add (F.of_u64 1) t)) x ≡ false
  pub grow_integer :
      (n : ℕ) (t : F.Double)
      → n < 2 ^ 53
      → F.finite t ≡ true
      → F.lt t (F.of_u64 0) ≡ false
      → F.lt (F.of_u64 1) t ≡ false
      → n ≤ F.to_u64 (F.mul (F.of_u64 n) (F.add (F.of_u64 1) t))
