-- ===== src/Slo.antt =====
-- slo/calculator.py of src/dbre_platform: error budgets and burn rates, on exact fractions. Counts,
-- windows and hours are not negative; a negative one, which the source refuses as it does zero or
-- takes for less than any bound, is not modelled. Details for people are left out.
pub mod Budget
pub mod Status
pub mod Meaning
pub mod Pillars
pub mod Report
pub mod Worst
use db_platform.Base.{ℕ, String, Bool, true, false, Option, List, [], ◌∷◌}
use db_platform.Base.Frac.{Frac}
use db_platform.Base.Number.{Number}

-- `Severity`
pub data AlertSeverity : Type 0 where
  ok ticket page : AlertSeverity

-- ValueError, and ZeroDivisionError.
pub data SloError : Type 0 where
  value_error : SloError
  zero_division : SloError

pub record ErrorBudgetStatus : Type 0 where
  pub name : String
  pub sli : Frac
  pub slo_target : Frac
  pub window_days : Frac
  pub error_budget : Frac
  pub budget_consumed_fraction : Frac
  pub budget_remaining_fraction : Number
  pub burn_rate : Frac
  pub severity : AlertSeverity

pub record SloReport : Type 0 where
  pub full_name : String
  pub environment : String
  pub statuses : List ErrorBudgetStatus
  pub not_assessed : List String

pub record MetricsSnapshot : Type 0 where
  pub window_days : Frac
  pub period_days : Frac
  pub good_requests : Option ℕ
  pub total_requests : Option ℕ
  pub good_latency_requests : Option ℕ
  pub total_latency_requests : Option ℕ
  pub hours_since_last_backup : Option Frac
  pub hours_since_last_recovery_test : Option Frac

-- `order`
unfoldable pub severity_order : AlertSeverity → ℕ
severity_order ok = 0
severity_order ticket = 1
severity_order page = 2

abbrev pub is_ok : AlertSeverity → Bool
is_ok severity = elim severity [ ok ↦ true | _ ↦ false ]

unfoldable pub is_healthy : ErrorBudgetStatus → Bool
is_healthy status = is_ok status.severity
