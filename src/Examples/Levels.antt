-- ===== src/Examples/Levels.antt =====
-- The service levels of the example request: 99.9% of its requests were served, against a target of
-- 99.95%.
use db_platform.Base.{◌≤◌, true, ◌≡◌, none, some, [], ◌↔◌, ◌⊎◌, All, Has, arith}
use db_platform.Base.Frac.{Frac, whole, lt_frac, eq_frac}
use db_platform.Base.Result.{Result}
use db_platform.Request.{DatabaseRequest}
use db_platform.Slo.{ErrorBudgetStatus, SloReport, MetricsSnapshot, severity_order, is_healthy}
use db_platform.Slo.Budget.{budget_consumed_fraction, burn_rate}
use db_platform.Slo.Status.{assess_slo, worst_severity, healthy}
use db_platform.Slo.Meaning.{IsProper, budget_consumed_fraction-over}
use db_platform.Base.{map, true, false}
use db_platform.Slo.Pillars.{names_with, data_of}
use db_platform.Slo.Report.{IsUsable, assess_slo-returns}
use db_platform.Slo.Worst.{worst_severity-All}
use db_platform.Examples.Provisions.{request}

abbrev served : Frac
served = record { num = 999; den = 1000 }

abbrev metrics : MetricsSnapshot
metrics = record {
  window_days = whole 1;
  period_days = whole 30;
  good_requests = some 999;
  total_requests = some 1000;
  good_latency_requests = none;
  total_latency_requests = none;
  hours_since_last_backup = some (whole 20);
  hours_since_last_recovery_test = none;
}

is_proper : IsProper request.spec.slo.availability_target
is_proper = record { positive = omega arith; below_one = omega arith }

is_usable : IsUsable request.spec.slo metrics
is_usable = record {
  some_window = omega arith;
  some_period = omega arith;
  requests = λ g t e k. ground arith;
  latency = λ g t e k. cc;
  some_rpo = omega arith;
}

budget_consumed_fraction-over_example :
    (c : Frac) × (budget_consumed_fraction served request.spec.slo.availability_target
      ≡ Result.ok c)
    × ((lt_frac (whole 1) c ≡ true) ↔ (lt_frac served request.spec.slo.availability_target ≡ true))
    × ((r : Frac) × (burn_rate served request.spec.slo.availability_target (whole 30) (whole 30)
          ≡ Result.ok r)
        × (eq_frac r c ≡ true))
budget_consumed_fraction-over_example =
    budget_consumed_fraction-over served request.spec.slo.availability_target (whole 30) is_proper
      (omega arith) (omega arith)

assess_slo-returns_example :
    (report : SloReport) × (assess_slo request metrics ≡ Result.ok report)
    × (map (λ s. s.name) report.statuses ≡ names_with true (data_of metrics))
    × (report.not_assessed ≡ names_with false (data_of metrics))
assess_slo-returns_example = assess_slo-returns request metrics is_proper is_usable

abbrev perfect : DatabaseRequest
perfect = record request {
  spec = record request.spec { slo = record request.spec.slo { availability_target = whole 1 } };
}

abbrev report : SloReport
report = (assess_slo-returns request metrics is_proper is_usable).0

worst_severity-All_example :
    All (λ s. severity_order s.severity ≤ severity_order (worst_severity report)) report.statuses
    × ((report.statuses ≡ [])
        ⊎ ((s : ErrorBudgetStatus) × Has s report.statuses × (s.severity ≡ worst_severity report)))
    × ((healthy report ≡ true) ↔ All (λ s. is_healthy s ≡ true) report.statuses)
worst_severity-All_example = worst_severity-All report
