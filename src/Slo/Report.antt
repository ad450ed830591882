-- ===== src/Slo/Report.antt =====
-- Which requests `assess_slo` of slo/calculator.py reports on, and what its verdict says.
use db_platform.Base.{
  ℕ, ◌≤◌, ◌<◌, String, true, false, Option, none, some, [], ◌∷◌, ◌≡◌, refl, inl, inr, arith, eqb,
  Bool-cases, map,
}
use db_platform.Base.Frac.{Frac, mul_frac, whole, lt_frac}
use db_platform.Base.Result.{Result, err, Returns, then-Returns}
use db_platform.Request.{DatabaseRequest, SloTargets}
use db_platform.Slo.{SloError, ErrorBudgetStatus, SloReport, MetricsSnapshot}
use db_platform.Slo.Budget.{
  sli_from_good_total, error_budget, budget_consumed_fraction, budget_remaining_fraction, burn_rate,
  divided, shortfall,
}
use db_platform.Slo.Status.{
  ratio_status, availability_status, latency_status, backup_status, recovery_status,
  review_interval_hours, pillars_of, assess_slo, Pillars, report_of, age_status, backup_severity,
  recovery_severity,
}
use db_platform.Slo.Meaning.{IsProper, error_budget-IsProper, divided-IsProper}
use db_platform.Slo.Pillars.{
  data_of, names_with, IsDescribed, assessed-names, unassessed-names, ratio_status-IsNamed,
  age-IsNamed,
}

-- Counts that `sli_from_good_total` takes.
abbrev pub IsCount : Option ℕ → Option ℕ → Type 0
IsCount good total = (g t : ℕ) → good ≡ some g → total ≡ some t → (g ≤ t) × (0 < t)

-- Windows that are not empty, counts that fit and a target for backups.
pub record IsUsable (slo : SloTargets) (metrics : MetricsSnapshot) : Type 0 where
  pub some_window : 0 < metrics.window_days.num
  pub some_period : 0 < metrics.period_days.num
  pub requests : IsCount metrics.good_requests metrics.total_requests
  pub latency : IsCount metrics.good_latency_requests metrics.total_latency_requests
  pub some_rpo : 0 < slo.backup_rpo_hours.num

sli-returns :
    (g t : ℕ) → g ≤ t → 0 < t → sli_from_good_total g t ≡ Result.ok (record { num = g; den = t })
unfolding sli_from_good_total
sli-returns g t fits some_total = ground arith

module _ (target : Frac) (proper : IsProper target) where
  divided-Returns : (a : Frac) → Returns (divided a (shortfall target))
  divided-Returns a = (_, divided-IsProper a target proper)

  budget-then :
      {T : Type 0} (next : Frac → Result SloError T)
      → Returns (next (shortfall target))
      → Returns (elim (error_budget target) [ err e ↦ err e | Result.ok b ↦ next b ])
  budget-then next h = rw (error_budget-IsProper target proper) h

  burn_rate-Returns :
      (sli window period : Frac)
      → 0 < window.num
      → 0 < period.num
      → Returns (burn_rate sli target window period)
  unfolding burn_rate
  burn_rate-Returns sli window period some_window some_period =
      let w : eqb window.num 0 ≡ false = ground arith in
      let p : eqb period.num 0 ≡ false = ground arith in
      rw (w, p)
        (budget-then _ (
          then-Returns (divided (shortfall sli) (shortfall target)) _
            (divided-Returns (shortfall sli)) (λ r. (_, refl))))

  consumed-Returns : (sli : Frac) → Returns (budget_consumed_fraction sli target)
  unfolding budget_consumed_fraction
  consumed-Returns sli = budget-then _ (divided-Returns (shortfall sli))

  remaining-Returns : (sli : Frac) → Returns (budget_remaining_fraction sli target)
  unfolding budget_remaining_fraction
  remaining-Returns sli =
      then-Returns (budget_consumed_fraction sli target) _ (consumed-Returns sli) (λ c. (_, refl))

  ratio_status-Returns :
      (name : String) (metrics : MetricsSnapshot) (good total : Option ℕ)
      → 0 < metrics.window_days.num
      → 0 < metrics.period_days.num
      → IsCount good total
      → Returns (ratio_status name target metrics good total)
  unfolding ratio_status
  ratio_status-Returns name metrics none total w p counts = (none, refl)
  ratio_status-Returns name metrics (some g) none w p counts = (none, refl)
  ratio_status-Returns name metrics (some g) (some t) w p counts =
      let (fits, some_total) = counts g t refl refl in
      let sli : Frac = record { num = g; den = t } in
      then-Returns (sli_from_good_total g t) _ (sli, sli-returns g t fits some_total)
        (λ s.
          then-Returns (burn_rate s target metrics.window_days metrics.period_days) _
            (burn_rate-Returns s metrics.window_days metrics.period_days w p)
            (λ rate. budget-then _ (
              then-Returns (budget_consumed_fraction s target) _ (consumed-Returns s) (λ c.
                then-Returns (budget_remaining_fraction s target) _ (remaining-Returns s)
                  (λ r. (_, refl))))))

review_interval_hours-positive : (target : Frac) → 0 < (review_interval_hours target).num
unfolding review_interval_hours
review_interval_hours-positive target = elim (Bool-cases (eqb (mul_frac target (whole 24)).num 0)) [
  | inl z ↦ rw z (omega arith)
  | inr nz ↦ elim (Bool-cases (lt_frac (mul_frac target (whole 24)) (whole 720))) [
    | inl low ↦ rw (nz, low) (ground arith)
    | inr high ↦ rw (nz, high) (omega arith)
  ]
]

divided_positive : (a b : Frac) → 0 < b.num → Returns (divided a b)
unfolding divided
divided_positive a b h = let nz : eqb b.num 0 ≡ false = ground arith in rw nz (_, refl)

all_pillars :
    (slo : SloTargets) (metrics : MetricsSnapshot) (a l b r : Option ErrorBudgetStatus)
    → availability_status slo metrics ≡ Result.ok a
    → latency_status slo metrics ≡ Result.ok l
    → backup_status slo metrics ≡ Result.ok b
    → recovery_status slo metrics ≡ Result.ok r
    → pillars_of slo metrics
      ≡ Result.ok (("availability", a) ∷ ("latency", l) ∷ ("backup", b) ∷ ("recovery", r) ∷ [])
unfolding pillars_of
all_pillars slo metrics a l b r ea el eb er = rw (pillars_of, ea, el, eb, er) refl

age-Returns :
    {T : Type 0} (hours : Option Frac) (bound : Frac) (next : Frac → Option T)
    → 0 < bound.num
    → Returns (elim hours [
      | none ↦ Result.ok none
      | some h ↦ elim (divided h bound) [ err e ↦ err e | Result.ok r ↦ Result.ok (next r) ]
    ])
age-Returns none bound next h = (none, refl)
age-Returns (some hours) bound next h =
    then-Returns (divided hours bound) _ (divided_positive hours bound h) (λ r. (next r, refl))

-- Where the target for availability is below one and the metrics are usable, `assess_slo` reports: its
-- statuses are those of the pillars with data, in the order availability, latency, backup and
-- recovery, and it lists the pillars without data, in that order, as not assessed.
pub assess_slo-returns :
    (request : DatabaseRequest) (metrics : MetricsSnapshot)
    → IsProper request.spec.slo.availability_target
    → IsUsable request.spec.slo metrics
    → (report : SloReport) × (assess_slo request metrics ≡ Result.ok report)
      × (map (λ s. s.name) report.statuses ≡ names_with true (data_of metrics))
      × (report.not_assessed ≡ names_with false (data_of metrics))
unfolding assess_slo pillars_of availability_status latency_status backup_status recovery_status
assess_slo-returns request metrics proper u =
    let slo = request.spec.slo in
    let target = slo.availability_target in
    let (a, a_done) =
      ratio_status-Returns target proper "availability" metrics metrics.good_requests
        metrics.total_requests u.some_window u.some_period u.requests in
    let (l, l_done) =
      ratio_status-Returns target proper "latency" metrics metrics.good_latency_requests
        metrics.total_latency_requests u.some_window u.some_period u.latency in
    let (b, b_done) =
      age-Returns metrics.hours_since_last_backup slo.backup_rpo_hours
        (λ r. some (age_status "backup" metrics r (backup_severity r))) u.some_rpo in
    let (r, r_done) =
      age-Returns metrics.hours_since_last_recovery_test
        (review_interval_hours slo.recovery_rto_hours)
        (λ r. some (age_status "recovery" metrics r (recovery_severity r)))
        (review_interval_hours-positive slo.recovery_rto_hours) in
    let pillars : Pillars =
      ("availability", a) ∷ ("latency", l) ∷ ("backup", b) ∷ ("recovery", r) ∷ [] in
    let described : IsDescribed pillars (data_of metrics) = (
      (
        refl,
        ratio_status-IsNamed "availability" target metrics metrics.good_requests
            metrics.total_requests a a_done,
      ),
      (
        (
          refl,
          ratio_status-IsNamed "latency" target metrics metrics.good_latency_requests
              metrics.total_latency_requests l l_done,
        ),
        (
          (
            refl,
            age-IsNamed "backup" metrics.hours_since_last_backup slo.backup_rpo_hours _ (λ r. refl)
                b b_done,
          ),
          (
            (
              refl,
              age-IsNamed "recovery" metrics.hours_since_last_recovery_test
                  (review_interval_hours slo.recovery_rto_hours) _ (λ r. refl) r r_done,
            ),
            tt,
          ),
        ),
      ),
    ) in
    (
      report_of request pillars,
      rw (assess_slo, all_pillars slo metrics a l b r a_done l_done b_done r_done) refl,
      assessed-names pillars (data_of metrics) described,
      unassessed-names pillars (data_of metrics) described,
    )
