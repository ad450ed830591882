-- ===== src/Base/Frac/Bounds.antt =====
-- Bounds of rounded quotients and of products of fractions that are at most one.
use native.Mathlib.Nat.{
  mul-le-mul, div-add-mod, lt_of_mul-lt-mul_left, le_of_mul-le-mul_left, mul_comm,
}
use db_platform.Base.{ℕ, ◌*◌, ◌/◌, ◌%◌, ◌^◌, ◌≤◌, ◌<◌, arith, ltb→lt}
use db_platform.Base.Frac.{Frac, mul_frac, round_half_even, round_frac, IsUnit}

-- n / d is at most m, and below it where a remainder is left.
quotient-le : (n d m : ℕ) → 0 < d → n ≤ m * d → n / d ≤ m
quotient-le n d m h k = le_of_mul-le-mul_left (omega (arith, div-add-mod n d, mul_comm m d)) h

quotient-lt : (n d m : ℕ) → 0 < n % d → n ≤ m * d → n / d < m
quotient-lt n d m h k = lt_of_mul-lt-mul_left d (omega (arith, div-add-mod n d, mul_comm m d))

-- A rounded quotient is at most a whole bound of the quotient.
pub round_half_even-le : (n d m : ℕ) → 0 < d → n ≤ m * d → round_half_even n d ≤ m
unfolding round_half_even
round_half_even-le n d m h k =
    ground (arith, quotient-le n d m h k, quotient-lt n d m, ltb→lt d (2 * (n % d)))

pub mul_frac-IsUnit : (x y : Frac) → IsUnit x → IsUnit y → IsUnit (mul_frac x y)
mul_frac-IsUnit x y h k = record { pos = grind arith; le_one = mul-le-mul h.le_one k.le_one }

pub round_frac-IsUnit : (x : Frac) → IsUnit x → IsUnit (round_frac 4 x)
unfolding round_frac
round_frac-IsUnit x h = record {
  pos = omega arith;
  le_one = round_half_even-le (x.num * 10 ^ 4) x.den (10 ^ 4) h.pos (omega (arith, h.le_one));
}
