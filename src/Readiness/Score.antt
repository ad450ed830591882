-- ===== src/Readiness/Score.antt =====
-- The score of readiness/scorecard.py, against the weights of the checks that pass.
use db_platform.Base.{
  ℕ, ◌*◌, ◌/◌, ◌%◌, ◌≤◌, String, true, Option, List, [], ◌∷◌, ◌==◌, ◌≡◌, refl, arith, length, any,
  Has, eq_iff, le→leb,
}
use db_platform.Base.Frac.{round_half_even}
use db_platform.Request.{DatabaseRequest, Environment}
use db_platform.Policy.Shipped.Production.{IsProductionGrade}
use db_platform.Readiness.{
  ReadinessCheck, ReadinessAssessment, weight_sum, earned, total_or_one, score, check_multi_az,
  check_backup_retention, minimum_retention, check_deletion_protection, check_monitoring,
  check_audit_logging, is_sensitive, check_approvals, check_slo_defined, availability_floor,
  check_tags_complete, check_connection_governance, check_ownership, assess_readiness,
}

-- The ten weights sum to 100.
weight_sum-assess :
    (global_tags : List (String × String)) (thresholds : Option (List (String × ℕ)))
    (request : DatabaseRequest)
    → weight_sum (assess_readiness global_tags thresholds request).checks ≡ 100
unfolding assess_readiness check_multi_az check_backup_retention check_deletion_protection
    check_monitoring check_audit_logging check_approvals check_slo_defined check_tags_complete
    check_connection_governance check_ownership
weight_sum-assess global_tags thresholds request = refl

earned_le : (checks : List ReadinessCheck) → earned checks ≤ weight_sum checks
earned_le [] = omega arith
earned_le (c ∷ cs) = ground (arith, earned_le cs)

round_hundredths : (n : ℕ) → round_half_even (100 * n) 100 ≡ n
unfolding round_half_even
round_hundredths n =
    let whole_part : 100 * n / 100 ≡ n = omega arith in
    let no_rest : 100 * n % 100 ≡ 0 = omega arith in rw (no_rest, whole_part) refl

score-hundred : (a : ReadinessAssessment) → weight_sum a.checks ≡ 100 → score a ≡ earned a.checks
unfolding score total_or_one
score-hundred a h = rw h (round_hundredths (earned a.checks))

-- The score of a request is the weight of the checks that it passes, at most 100.
pub score-assess_readiness :
    (global_tags : List (String × String)) (thresholds : Option (List (String × ℕ)))
    (request : DatabaseRequest)
    → (score (assess_readiness global_tags thresholds request)
        ≡ earned (assess_readiness global_tags thresholds request).checks)
      × (score (assess_readiness global_tags thresholds request) ≤ 100)
score-assess_readiness global_tags thresholds request =
    let a = assess_readiness global_tags thresholds request in
    let total = weight_sum-assess global_tags thresholds request in
    let same = score-hundred a total in (same, omega (arith, earned_le a.checks, same, total))

pub any-Has : (s : String) (xs : List String) → Has s xs → any (λ x. x == s) xs ≡ true
any-Has s [] h = absurd h
any-Has s (x ∷ xs) h = ground (arith, eq_iff x s, any-Has s xs)

-- Of the ten checks, the seven that read what the policies for production ask for too.
module _ (request : DatabaseRequest) (in_prod : request.metadata.environment ≡ Environment.prod)
    (h : IsProductionGrade request) where
  multi_az-passed : (check_multi_az request).passed ≡ true
  unfolding check_multi_az
  multi_az-passed = rw (in_prod, h.multi_az_enabled) refl

  backup_retention-passed : (check_backup_retention request).passed ≡ true
  unfolding check_backup_retention minimum_retention
  backup_retention-passed = rw in_prod (le→leb 30 request.spec.backup_retention_days h.backups_kept)

  deletion_protection-passed : (check_deletion_protection request).passed ≡ true
  unfolding check_deletion_protection
  deletion_protection-passed = rw (in_prod, h.deletion_protected) refl

  monitoring-passed : (check_monitoring request).passed ≡ true
  unfolding check_monitoring
  monitoring-passed = rw (in_prod, h.enhanced_monitored) refl

  audit_logging-passed : (check_audit_logging request).passed ≡ true
  unfolding check_audit_logging is_sensitive
  audit_logging-passed = rw (any-Has "pgaudit" request.spec.extensions h.audited) (ground arith)

  approvals-passed : (check_approvals request).passed ≡ true
  unfolding check_approvals
  approvals-passed = rw (in_prod, le→leb 1 (length request.spec.approvals) h.approved) refl

  slo_defined-passed : (check_slo_defined request).passed ≡ true
  unfolding check_slo_defined availability_floor
  slo_defined-passed = rw in_prod (le→leb _ _ h.availability_met)

  -- A production request that has what the policies for production ask for has a score of at least
  -- 85, whatever its tags, its timeouts and its owner are.
  pub IsProductionGrade-score :
      (global_tags : List (String × String)) (thresholds : Option (List (String × ℕ)))
      → 85 ≤ score (assess_readiness global_tags thresholds request)
  unfolding assess_readiness check_multi_az check_backup_retention check_deletion_protection
      check_monitoring check_audit_logging check_approvals check_slo_defined
  IsProductionGrade-score global_tags thresholds =
      rw
        (
          (score-assess_readiness global_tags thresholds request).0,
          multi_az-passed,
          backup_retention-passed,
          deletion_protection-passed,
          monitoring-passed,
          audit_logging-passed,
          approvals-passed,
          slo_defined-passed,
        )
        (omega arith)
