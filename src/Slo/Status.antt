-- ===== src/Slo/Status.antt =====
-- The assessment of the four pillars of slo/calculator.py, and the report of those with data.
use db_platform.Base.{
  ℕ, ◌-◌, String, Bool, Option, none, some, List, [], ◌∷◌, ltb, eqb, if◌then◌else◌,
}
use db_platform.Base.Frac.{Frac, whole, percent, le_frac, lt_frac, mul_frac}
use db_platform.Base.Result.{Result, err}
use db_platform.Request.{DatabaseRequest, SloTargets, environment_name, full_name}
use db_platform.Slo.{
  AlertSeverity, SloError, ErrorBudgetStatus, SloReport, MetricsSnapshot, severity_order, is_ok,
}
use db_platform.Slo.Budget.{
  sli_from_good_total, error_budget, budget_consumed_fraction, budget_remaining_fraction, burn_rate,
  classify_burn_rate, divided, one_minus,
}

abbrev pub Assessed : Type 0
Assessed = Result SloError (Option ErrorBudgetStatus)

-- What `_availability_status` and `_latency_status` share: the assessment of a share of good events.
unfoldable pub ratio_status : String → Frac → MetricsSnapshot → Option ℕ → Option ℕ → Assessed
unfolding sli_from_good_total burn_rate error_budget budget_consumed_fraction
    budget_remaining_fraction classify_burn_rate
ratio_status name target metrics good total = elim good [
  | none ↦ Result.ok none
  | some g ↦ elim total [
    | none ↦ Result.ok none
    | some t ↦ elim (sli_from_good_total g t) [
      | err e ↦ err e
      | Result.ok sli ↦ elim (burn_rate sli target metrics.window_days metrics.period_days) [
        | err e ↦ err e
        | Result.ok rate ↦ elim (error_budget target) [
          | err e ↦ err e
          | Result.ok budget ↦ elim (budget_consumed_fraction sli target) [
            | err e ↦ err e
            | Result.ok consumed ↦ elim (budget_remaining_fraction sli target) [
              | err e ↦ err e
              | Result.ok remaining ↦ Result.ok (
                  some (record {
                    name = name;
                    sli = sli;
                    slo_target = target;
                    window_days = metrics.window_days;
                    error_budget = budget;
                    budget_consumed_fraction = consumed;
                    budget_remaining_fraction = remaining;
                    burn_rate = rate;
                    severity = classify_burn_rate rate;
                  }))
            ]
          ]
        ]
      ]
    ]
  ]
]

unfoldable pub availability_status : SloTargets → MetricsSnapshot → Assessed
unfolding ratio_status
availability_status slo metrics =
    ratio_status "availability" slo.availability_target metrics metrics.good_requests
      metrics.total_requests

unfoldable pub latency_status : SloTargets → MetricsSnapshot → Assessed
unfolding ratio_status
latency_status slo metrics =
    ratio_status "latency" slo.availability_target metrics metrics.good_latency_requests
      metrics.total_latency_requests

-- `max(0.0, 1.0 - max(0.0, ratio - 1.0))`
unfoldable pub age_sli : Frac → Frac
age_sli ratio = record { num = ratio.den - (ratio.num - ratio.den); den = ratio.den }

-- What `_backup_status` and `_recovery_status` share.
unfoldable pub age_status : String → MetricsSnapshot → Frac → AlertSeverity → ErrorBudgetStatus
unfolding age_sli one_minus
age_status name metrics ratio severity = record {
  name = name;
  sli = age_sli ratio;
  slo_target = whole 1;
  window_days = metrics.window_days;
  error_budget = whole 0;
  budget_consumed_fraction = ratio;
  budget_remaining_fraction = one_minus ratio;
  burn_rate = ratio;
  severity = severity;
}

unfoldable pub backup_severity : Frac → AlertSeverity
backup_severity ratio =
    if lt_frac (whole 1) ratio
    then AlertSeverity.page
    else if le_frac (percent 75) ratio
    then AlertSeverity.ticket
    else AlertSeverity.ok

unfoldable pub backup_status : SloTargets → MetricsSnapshot → Assessed
unfolding divided age_status backup_severity
backup_status slo metrics = elim metrics.hours_since_last_backup [
  | none ↦ Result.ok none
  | some hours ↦ elim (divided hours slo.backup_rpo_hours) [
    | err e ↦ err e
    | Result.ok ratio ↦ Result.ok (some (age_status "backup" metrics ratio (backup_severity ratio)))
  ]
]

-- `min(24.0 * 30.0, target * 24.0) or (24.0 * 30.0)`
unfoldable pub review_interval_hours : Frac → Frac
review_interval_hours target =
    let scaled = mul_frac target (whole 24) in
    if eqb scaled.num 0 then whole 720 else if lt_frac scaled (whole 720) then scaled else whole 720

unfoldable pub recovery_severity : Frac → AlertSeverity
recovery_severity ratio = if lt_frac (whole 1) ratio then AlertSeverity.ticket else AlertSeverity.ok

unfoldable pub recovery_status : SloTargets → MetricsSnapshot → Assessed
unfolding divided age_status recovery_severity review_interval_hours
recovery_status slo metrics = elim metrics.hours_since_last_recovery_test [
  | none ↦ Result.ok none
  | some hours ↦ elim (divided hours (review_interval_hours slo.recovery_rto_hours)) [
    | err e ↦ err e
    | Result.ok ratio ↦
        Result.ok (some (age_status "recovery" metrics ratio (recovery_severity ratio)))
  ]
]

-- `pillars`
abbrev pub Pillars : Type 0
Pillars = List (String × Option ErrorBudgetStatus)

unfoldable pub pillars_of : SloTargets → MetricsSnapshot → Result SloError Pillars
unfolding availability_status latency_status backup_status recovery_status
pillars_of slo metrics = elim (availability_status slo metrics) [
  | err e ↦ err e
  | Result.ok availability ↦ elim (latency_status slo metrics) [
    | err e ↦ err e
    | Result.ok latency ↦ elim (backup_status slo metrics) [
      | err e ↦ err e
      | Result.ok backup ↦ elim (recovery_status slo metrics) [
        | err e ↦ err e
        | Result.ok recovery ↦ Result.ok (
            ("availability", availability)
            ∷ ("latency", latency)
            ∷ ("backup", backup)
            ∷ ("recovery", recovery)
            ∷ [])
      ]
    ]
  ]
]

unfoldable pub assessed : Pillars → List ErrorBudgetStatus
assessed [] = []
assessed ((_, status) ∷ pillars) =
    let rest = assessed pillars in elim status [ none ↦ rest | some s ↦ s ∷ rest ]

unfoldable pub unassessed : Pillars → List String
unassessed [] = []
unassessed ((name, status) ∷ pillars) =
    let rest = unassessed pillars in elim status [ none ↦ name ∷ rest | some s ↦ rest ]

abbrev pub report_of : DatabaseRequest → Pillars → SloReport
unfolding assessed unassessed full_name environment_name
report_of request pillars = record {
  full_name = full_name request;
  environment = environment_name request.metadata.environment;
  statuses = assessed pillars;
  not_assessed = unassessed pillars;
}

unfoldable pub assess_slo : DatabaseRequest → MetricsSnapshot → Result SloError SloReport
unfolding pillars_of assessed unassessed full_name environment_name
assess_slo request metrics = elim (pillars_of request.spec.slo metrics) [
  | err e ↦ err e
  | Result.ok pillars ↦ Result.ok (report_of request pillars)
]

-- `max(...)` by the order, which takes the first of the worst
unfoldable pub worse : ErrorBudgetStatus → ErrorBudgetStatus → ErrorBudgetStatus
unfolding severity_order
worse w s = if ltb (severity_order w.severity) (severity_order s.severity) then s else w

unfoldable pub worst_of : ErrorBudgetStatus → List ErrorBudgetStatus → ErrorBudgetStatus
unfolding worse
worst_of worst [] = worst
worst_of worst (s ∷ statuses) = worst_of (worse worst s) statuses

unfoldable pub worst_among : List ErrorBudgetStatus → AlertSeverity
unfolding worst_of
worst_among [] = AlertSeverity.ok
worst_among (s ∷ statuses) = (worst_of s statuses).severity

unfoldable pub worst_severity : SloReport → AlertSeverity
unfolding worst_among
worst_severity report = worst_among report.statuses

unfoldable pub healthy : SloReport → Bool
unfolding worst_severity
healthy report = is_ok (worst_severity report)
