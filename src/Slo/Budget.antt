-- ===== src/Slo/Budget.antt =====
-- The primitives of slo/calculator.py: the indicator, the error budget and the burn rate.
use db_platform.Base.{ℕ, ◌*◌, ◌-◌, ◌||◌, ltb, eqb, if◌then◌else◌}
use db_platform.Base.Frac.{Frac, whole, le_frac, mul_frac}
use db_platform.Base.Number.{Number, plus, minus}
use db_platform.Base.Result.{Result, err}
use db_platform.Slo.{AlertSeverity, SloError, value_error, zero_division}

unfoldable pub sli_from_good_total : ℕ → ℕ → Result SloError Frac
sli_from_good_total good total =
    if eqb total 0
    then err value_error
    else if ltb total good
    then err value_error
    else Result.ok (record { num = good; den = total })

-- `max(0.0, 1.0 - x)`
abbrev pub shortfall : Frac → Frac
shortfall x = record { num = x.den - x.num; den = x.den }

unfoldable pub error_budget : Frac → Result SloError Frac
error_budget slo_target =
    if eqb slo_target.num 0 || ltb slo_target.den slo_target.num
    then err value_error
    else Result.ok (shortfall slo_target)

-- `a / b`
unfoldable pub divided : Frac → Frac → Result SloError Frac
divided a b =
    if eqb b.num 0
    then err zero_division
    else Result.ok (record { num = a.num * b.den; den = a.den * b.num })

unfoldable pub budget_consumed_fraction : Frac → Frac → Result SloError Frac
unfolding error_budget divided
budget_consumed_fraction sli slo_target = elim (error_budget slo_target) [
  | err e ↦ err e
  | Result.ok budget ↦ divided (shortfall sli) budget
]

-- `1.0 - x`
unfoldable pub one_minus : Frac → Number
one_minus x =
    if le_frac x (whole 1)
    then plus (record { num = x.den - x.num; den = x.den })
    else minus (record { num = x.num - x.den; den = x.den })

unfoldable pub budget_remaining_fraction : Frac → Frac → Result SloError Number
unfolding budget_consumed_fraction one_minus
budget_remaining_fraction sli slo_target = elim (budget_consumed_fraction sli slo_target) [
  | err e ↦ err e
  | Result.ok consumed ↦ Result.ok (one_minus consumed)
]

-- `period_days / window_days`
abbrev pub per_window : Frac → Frac → Frac
per_window window_days period_days = record {
  num = period_days.num * window_days.den;
  den = period_days.den * window_days.num;
}

unfoldable pub burn_rate : Frac → Frac → Frac → Frac → Result SloError Frac
unfolding error_budget divided
burn_rate sli_window slo_target window_days period_days =
    if eqb window_days.num 0
    then err value_error
    else if eqb period_days.num 0
    then err value_error
    else elim (error_budget slo_target) [
      | err e ↦ err e
      | Result.ok budget ↦ elim (divided (shortfall sli_window) budget) [
        | err e ↦ err e
        | Result.ok ratio ↦ Result.ok (mul_frac ratio (per_window window_days period_days))
      ]
    ]

abbrev pub fast_burn_threshold : Frac
fast_burn_threshold = record { num = 144; den = 10 }

abbrev pub slow_burn_threshold : Frac
slow_burn_threshold = whole 3

unfoldable pub classify_burn_rate : Frac → AlertSeverity
classify_burn_rate rate =
    if le_frac fast_burn_threshold rate
    then AlertSeverity.page
    else if le_frac slow_burn_threshold rate
    then AlertSeverity.ticket
    else AlertSeverity.ok
