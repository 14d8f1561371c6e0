-- ===== src/Common/Floats.antt =====
-- Python's `float`: what the code does with it, as an interface. A comparison with NaN is false
-- both ways, so `x <= y` is not the negation of `y < x`, and no law is assumed but where a theorem
-- names it.
use Prim.Native.Nat.{ℕ}
use mathlib.Core.Path.{◌≡◌}
use mathlib.Core.Bool.{Bool, true, false}
use mathlib.Core.List.{List}
use daily_alpha_engine.Common.Int.{ℤ}
use daily_alpha_engine.Common.Tests.{if◌then◌else◌}

-- `dec m k` is the literal m / 10^k, and `of_int` the conversion in `x * n`. `floor_quot x y` is
-- `int(x // y)`, used for a positive `y` only; `round` is the built-in with a number of digits, and
-- `sum` the built-in sum, which is compensated since Python 3.12.
pub record Floats (F : Type 0) : Type 0 where
  pub dec : ℕ → ℕ → F
  pub of_int : ℤ → F
  pub infinity : F
  pub add : F → F → F
  pub sub : F → F → F
  pub mul : F → F → F
  pub div : F → F → F
  pub neg : F → F
  pub abs : F → F
  pub sum : List F → F
  pub round : F → ℕ → F
  pub floor_quot : F → F → ℤ
  pub lt : F → F → Bool
  pub le : F → F → Bool
  pub eq : F → F → Bool
  pub is_finite : F → Bool

-- What IEEE comparison gives for every value, NaN among them.
pub record IsOrdered (F : Type 0) ⦃fl : Floats F⦄ : Type 0 where
  pub lt_le : (x y : F) → fl.lt x y ≡ true → fl.le x y ≡ true
  pub lt_not_le : (x y : F) → fl.lt x y ≡ true → fl.le y x ≡ false
  pub le_trans : (x y z : F) → fl.le x y ≡ true → fl.le y z ≡ true → fl.le x z ≡ true
  pub lt_le_trans : (x y z : F) → fl.lt x y ≡ true → fl.le y z ≡ true → fl.lt x z ≡ true
  pub le_lt_trans : (x y z : F) → fl.le x y ≡ true → fl.lt y z ≡ true → fl.lt x z ≡ true

-- Orders, with the zero literal, and the built-in `max` and `min` of two arguments, which return the
-- first unless the second is strictly beyond it.
module _ {F : Type 0} ⦃fl : Floats F⦄ where
  abbrev pub zero_f : F
  zero_f = fl.dec 0 0

  abbrev pub max_f : F → F → F
  max_f x y = if fl.lt x y then y else x

  abbrev pub min_f : F → F → F
  min_f x y = if fl.lt y x then y else x
