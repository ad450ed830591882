-- ===== src/Base/Number.antt =====
-- Python's numbers, which may be negative: a sign and a magnitude. -0 and 0 are equal.
use mathlib.Core.Bool.{Bool, true, false, ◌&&◌}
use db_platform.Base.Tests.{eqb, if◌then◌else◌}
use db_platform.Base.Frac.{Frac, le_frac, lt_frac, eq_frac}

pub data Number : Type 0 where
  plus : Frac → Number
  minus : Frac → Number

unfoldable pub is_zero : Number → Bool
is_zero (plus x) = eqb x.num 0
is_zero (minus x) = eqb x.num 0

-- a <= b
unfoldable pub le_number : Number → Number → Bool
le_number (plus a) (plus b) = le_frac a b
le_number (plus a) (minus b) = eqb a.num 0 && eqb b.num 0
le_number (minus a) (plus b) = true
le_number (minus a) (minus b) = le_frac b a

-- a < b
unfoldable pub lt_number : Number → Number → Bool
lt_number (plus a) (plus b) = lt_frac a b
lt_number (plus a) (minus b) = false
lt_number (minus a) (plus b) = if eqb a.num 0 then (if eqb b.num 0 then false else true) else true
lt_number (minus a) (minus b) = lt_frac b a

-- a == b
unfoldable pub eq_number : Number → Number → Bool
eq_number (plus a) (plus b) = eq_frac a b
eq_number (plus a) (minus b) = eqb a.num 0 && eqb b.num 0
eq_number (minus a) (plus b) = eqb a.num 0 && eqb b.num 0
eq_number (minus a) (minus b) = eq_frac a b
