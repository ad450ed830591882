-- ===== src/Slo/Meaning.antt =====
-- What the numbers of slo/calculator.py mean: the share of the error budget that is used, against the
-- target itself.
use db_platform.Base.{
  ℕ, ◌+◌, ◌*◌, ◌-◌, ◌≤◌, ◌<◌, true, false, ◌≡◌, refl, ◌↔◌, arith, eqb, ltb→lt, lt→ltb,
}
use db_platform.Base.Frac.{Frac, whole, lt_frac, eq_frac, mul_frac}
use db_platform.Base.Result.{Result}
use db_platform.Slo.Budget.{
  error_budget, budget_consumed_fraction, burn_rate, divided, shortfall, per_window,
}

-- A target below one, with a budget.
pub record IsProper (target : Frac) : Type 0 where
  pub positive : 0 < target.num
  pub below_one : target.num < target.den

pub error_budget-IsProper :
    (target : Frac) → IsProper target → error_budget target ≡ Result.ok (shortfall target)
unfolding error_budget
error_budget-IsProper target h = ground (arith, h.positive, h.below_one)

pub divided-IsProper :
    (a target : Frac)
    → IsProper target
    → divided a (shortfall target)
      ≡ Result.ok (record { num = a.num * target.den; den = a.den * (target.den - target.num) })
unfolding divided
divided-IsProper a target h = ground (arith, h.positive, h.below_one)

cross : (n k x j : ℕ) → ((n + k) * j < k * (x + j)) ↔ (n * (x + j) < x * (n + k))
cross n k x j = (λ h. omega arith, λ h. omega arith)

complement : (a b : ℕ) → a ≤ b → b ≡ a + (b - a)
complement a b h = omega arith

-- The share that is used is over one exactly where the indicator is under the target.
overspent : (n d x y : ℕ) → n ≤ d → x ≤ y → (d * (y - x) < (d - n) * y) ↔ (n * y < x * d)
overspent n d x y n_le x_le =
    rw (← complement n d n_le, ← complement x y x_le) at (cross n (d - n) x (y - x))

eqb_refl : (n : ℕ) → eqb n n ≡ true
eqb_refl n = ground arith

same_product : (c period : Frac) → eq_frac (mul_frac c (per_window period period)) c ≡ true
same_product c period =
    let same : c.num * (period.num * period.den) * c.den
        ≡ c.num * (c.den * (period.den * period.num)) =
      omega arith in
    rw same (eqb_refl (c.num * (c.den * (period.den * period.num))))

-- For a target below one and an indicator of at most one, the consumed fraction of the budget is
-- over one exactly where the indicator is below the target, and the burn rate of a window of the
-- whole period is that fraction.
pub budget_consumed_fraction-over :
    (sli target period : Frac)
    → IsProper target
    → sli.num ≤ sli.den
    → 0 < period.num
    → (c : Frac) × (budget_consumed_fraction sli target ≡ Result.ok c)
      × ((lt_frac (whole 1) c ≡ true) ↔ (lt_frac sli target ≡ true))
      × ((r : Frac) × (burn_rate sli target period period ≡ Result.ok r) × (eq_frac r c ≡ true))
unfolding budget_consumed_fraction burn_rate
budget_consumed_fraction-over sli target period h most some_days =
    let budget = error_budget-IsProper target h in
    let some_period : eqb period.num 0 ≡ false = ground arith in
    let c : Frac = record {
      num = (sli.den - sli.num) * target.den;
      den = sli.den * (target.den - target.num);
    } in
    let meaning =
      overspent sli.num sli.den target.num target.den most (omega (arith, h.below_one)) in
    (
      c,
      rw (budget_consumed_fraction, budget) (divided-IsProper (shortfall sli) target h),
      (
        (λ over.
            lt→ltb (sli.num * target.den) (target.num * sli.den)
              (meaning.0 (omega (arith, ltb→lt (1 * c.den) (c.num * 1) over)))),
        (λ low.
            lt→ltb (1 * c.den) (c.num * 1) (
              omega (arith, meaning.1 (ltb→lt (sli.num * target.den) (target.num * sli.den) low)))),
      ),
      (
        mul_frac c (per_window period period),
        rw (burn_rate, some_period, budget, divided-IsProper (shortfall sli) target h) refl,
        same_product c period,
      ),
    )
