-- ===== src/Base/Frac.antt =====
-- Non-negative fractions in place of Python's floats, and `round` to a number of decimals.
pub mod Bounds
use Prim.Native.Nat.{ℕ, ◌+◌, ◌*◌, ◌/◌, ◌%◌, ◌^◌, ◌≤◌, ◌<◌}
use mathlib.Core.Bool.{Bool}
use db_platform.Base.Tests.{ltb, leb, eqb, if◌then◌else◌}

pub record Frac : Type 0 where
  pub num : ℕ
  pub den : ℕ

abbrev pub whole : ℕ → Frac
whole n = record { num = n; den = 1 }

-- n hundredths
abbrev pub percent : ℕ → Frac
percent n = record { num = n; den = 100 }

abbrev pub ten_thousandths : ℕ → Frac
ten_thousandths n = record { num = n; den = 10000 }

abbrev pub le_frac : Frac → Frac → Bool
le_frac a b = leb (a.num * b.den) (b.num * a.den)

abbrev pub lt_frac : Frac → Frac → Bool
lt_frac a b = ltb (a.num * b.den) (b.num * a.den)

abbrev pub eq_frac : Frac → Frac → Bool
eq_frac a b = eqb (a.num * b.den) (b.num * a.den)

abbrev pub add_frac : Frac → Frac → Frac
add_frac a b = record { num = a.num * b.den + b.num * a.den; den = a.den * b.den }

abbrev pub mul_frac : Frac → Frac → Frac
mul_frac a b = record { num = a.num * b.num; den = a.den * b.den }

-- n / d to the nearest whole number, and to the even one of two that are equally near.
unfoldable pub round_half_even : ℕ → ℕ → ℕ
round_half_even n d =
    if ltb (2 * (n % d)) d
    then n / d
    else if ltb d (2 * (n % d))
    then n / d + 1
    else if eqb (n / d % 2) 0
    then n / d
    else n / d + 1

-- `round(x, k)`
unfoldable pub round_frac : ℕ → Frac → Frac
round_frac k x = record { num = round_half_even (x.num * 10 ^ k) x.den; den = 10 ^ k }

-- A denominator, and a value of at most one.
pub record IsUnit (x : Frac) : Type 0 where
  pub pos : 0 < x.den
  pub le_one : x.num ≤ x.den
