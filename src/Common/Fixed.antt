-- ===== src/Common/Fixed.antt =====
-- A fixed-point arithmetic that meets the float interface, for examples: an integer counts millionths.
use Prim.Native.Nat.{suc, ◌+◌, ◌*◌, ◌/◌, ◌^◌}
use mathlib.Core.Bool.{true}
use mathlib.Core.List.{List, [], ◌∷◌}
use native.Mathlib.Omega.{arith}
use daily_alpha_engine.Common.Int.{
  ℤ, pos, negsuc, pos_part, neg_part, ◌+ℤ◌, ◌-ℤ◌, ◌*ℤ◌, floor_div, ltb_ℤ, leb_ℤ, eqb_ℤ, sub_ℕ,
}
use daily_alpha_engine.Common.Floats.{Floats, IsOrdered}

pub record Fixed : Type 0 where
  pub millionths : ℤ

abbrev fixed : ℤ → Fixed
fixed z = record { millionths = z }

-- Division that rounds towards zero; dividing by zero gives zero.
abbrev quotient : ℤ → ℤ → ℤ
quotient (pos n) (pos k) = pos (n / k)
quotient (pos n) (negsuc k) = sub_ℕ 0 (n / suc k)
quotient (negsuc n) (pos k) = sub_ℕ 0 (suc n / k)
quotient (negsuc n) (negsuc k) = pos (suc n / suc k)

abbrev scale : ℤ
scale = pos 1_000_000

abbrev total : List Fixed → ℤ
total [] = pos 0
total (x ∷ xs) = x.millionths +ℤ total xs

abbrev magnitude : ℤ → ℤ
magnitude z = pos (pos_part z + neg_part z)

instance abbrev pub fixed_floats : Floats Fixed
fixed_floats = record {
  dec = λ m k. fixed (pos (m * 1_000_000 / 10 ^ k));
  of_int = λ n. fixed (n *ℤ scale);
  infinity = fixed (pos (10 ^ 30));
  add = λ x y. fixed (x.millionths +ℤ y.millionths);
  sub = λ x y. fixed (x.millionths -ℤ y.millionths);
  mul = λ x y. fixed (quotient (x.millionths *ℤ y.millionths) scale);
  div = λ x y. fixed (quotient (x.millionths *ℤ scale) y.millionths);
  neg = λ x. fixed (pos 0 -ℤ x.millionths);
  abs = λ x. fixed (magnitude x.millionths);
  sum = λ xs. fixed (total xs);
  round = λ x n. x;
  floor_quot = λ x y. floor_div x.millionths (pos_part y.millionths);
  lt = λ x y. ltb_ℤ x.millionths y.millionths;
  le = λ x y. leb_ℤ x.millionths y.millionths;
  eq = λ x y. eqb_ℤ x.millionths y.millionths;
  is_finite = λ x. true;
}

pub fixed-IsOrdered : IsOrdered Fixed
fixed-IsOrdered = record {
  lt_le = λ x y h. ground arith;
  lt_not_le = λ x y h. ground arith;
  le_trans = λ x y z h k. ground arith;
  lt_le_trans = λ x y z h k. ground arith;
  le_lt_trans = λ x y z h k. ground arith;
}

-- To run the arithmetic in a test.
unfoldable pub fixed_open : Unit {0}
unfolding ◌+ℤ◌ ◌-ℤ◌ ◌*ℤ◌ floor_div
fixed_open = tt
