-- ===== src/Readiness.antt =====
-- readiness/scorecard.py: the operational readiness of a request, a weighted sum of ten checks.
-- What policies/readiness.yaml and policies/tagging.yaml hold is an argument; the details that a
-- check prints are left out.
pub mod Score
use Prim.Native.Char.{Char, code}
use Prim.Native.String
use db_platform.Base.{
  ℕ, ◌+◌, ◌*◌, String, Bool, true, false, not, ◌&&◌, ◌||◌, Option, none, some, List, [], ◌∷◌, ◌==◌,
  leb, ltb, eqb, if◌then◌else◌, length, any, all, map, is_empty, keep,
}
use db_platform.Base.Dict.{get}
use db_platform.Base.Frac.{Frac, percent, le_frac, round_half_even}
use db_platform.Request.{
  DatabaseRequest, Environment, DataClassification, Approval, environment_name,
}
use db_platform.Request.Tags.{required_tag_keys, resolve_tags}
use db_platform.RiskPolicy.Operators.{count_chars}

pub record ReadinessCheck : Type 0 where
  pub name : String
  pub category : String
  pub weight : ℕ
  pub passed : Bool

pub record ReadinessAssessment : Type 0 where
  pub checks : List ReadinessCheck
  pub threshold : ℕ

abbrev pub weight_sum : List ReadinessCheck → ℕ
weight_sum [] = 0
weight_sum (c ∷ cs) = c.weight + weight_sum cs

abbrev pub earned : List ReadinessCheck → ℕ
earned checks = weight_sum (keep (λ c. c.passed) checks)

-- `sum(...) or 1`
unfoldable pub total_or_one : List ReadinessCheck → ℕ
total_or_one checks = if eqb (weight_sum checks) 0 then 1 else weight_sum checks

unfoldable pub score : ReadinessAssessment → ℕ
unfolding total_or_one round_half_even
score a = round_half_even (100 * earned a.checks) (total_or_one a.checks)

unfoldable pub passed : ReadinessAssessment → Bool
unfolding score
passed a = leb a.threshold (score a)

abbrev pub is_prod : DatabaseRequest → Bool
is_prod request = elim request.metadata.environment [ Environment.prod ↦ true | _ ↦ false ]

abbrev check_of : String → String → ℕ → Bool → ReadinessCheck
check_of name category weight ok = record {
  name = name;
  category = category;
  weight = weight;
  passed = ok;
}

unfoldable pub check_multi_az : DatabaseRequest → ReadinessCheck
check_multi_az request =
    check_of "Multi-AZ failover" "reliability" 15 (not (is_prod request) || request.spec.multi_az)

unfoldable pub minimum_retention : Environment → ℕ
minimum_retention Environment.dev = 1
minimum_retention Environment.staging = 7
minimum_retention Environment.prod = 30

unfoldable pub check_backup_retention : DatabaseRequest → ReadinessCheck
unfolding minimum_retention
check_backup_retention request =
    check_of "Backup retention" "recoverability" 15
      (leb (minimum_retention request.metadata.environment) request.spec.backup_retention_days)

unfoldable pub check_deletion_protection : DatabaseRequest → ReadinessCheck
check_deletion_protection request =
    check_of "Deletion protection" "safety" 10
      (not (is_prod request) || request.spec.deletion_protection)

unfoldable pub check_monitoring : DatabaseRequest → ReadinessCheck
check_monitoring request =
    check_of "Enhanced monitoring" "observability" 10
      (not (is_prod request) || request.spec.enhanced_monitoring)

unfoldable pub is_sensitive : DataClassification → Bool
is_sensitive DataClassification.confidential = true
is_sensitive DataClassification.restricted = true
is_sensitive _ = false

unfoldable pub check_audit_logging : DatabaseRequest → ReadinessCheck
unfolding is_sensitive
check_audit_logging request = check_of "Audit logging for sensitive data" "compliance" 15 (
    not (is_sensitive request.metadata.data_classification)
    || any (λ e. e == "pgaudit") request.spec.extensions)

unfoldable pub check_approvals : DatabaseRequest → ReadinessCheck
check_approvals request =
    check_of "Change approval" "governance" 10
      (not (is_prod request) || leb 1 (length request.spec.approvals))

unfoldable pub availability_floor : Environment → Frac
availability_floor Environment.dev = percent 95
availability_floor Environment.staging = percent 99
availability_floor Environment.prod = record { num = 999; den = 1000 }

unfoldable pub check_slo_defined : DatabaseRequest → ReadinessCheck
unfolding availability_floor
check_slo_defined request =
    check_of "SLO target defined" "reliability" 10 (
      le_frac (availability_floor request.metadata.environment)
        request.spec.slo.availability_target)

-- `not tags.get(key)`
abbrev pub is_missing : List (String × String) → String → Bool
is_missing tags key = elim (get key tags) [ none ↦ true | some value ↦ value == "" ]

unfoldable pub check_tags_complete : List (String × String) → DatabaseRequest → ReadinessCheck
unfolding resolve_tags
check_tags_complete global_tags request =
    check_of "Tag governance" "governance" 5
      (is_empty (keep (is_missing (resolve_tags global_tags request)) required_tag_keys))

abbrev is_within : ℕ → ℕ → Bool
is_within n most = ltb 0 n && leb n most

unfoldable pub check_connection_governance : DatabaseRequest → ReadinessCheck
check_connection_governance request = check_of "Connection/session governance" "reliability" 5 (
    is_within request.spec.statement_timeout_ms 300000
    && is_within request.spec.idle_in_transaction_timeout_ms 600000)

-- The characters that `str.strip` takes off.
unfoldable pub is_space : Char → Bool
is_space c =
    let n = code c in
    (leb 9 n && leb n 13)
    || (leb 28 n && leb n 32)
    || (leb 8192 n && leb n 8202)
    || any (eqb n) (133 ∷ 160 ∷ 5760 ∷ 8232 ∷ 8233 ∷ 8239 ∷ 8287 ∷ 12288 ∷ [])

unfoldable pub strip_start : String → String
unfolding is_space
strip_start String.[] = ""
strip_start (String.◌∷◌ c s) =
    let rest = strip_start s in if is_space c then rest else String.◌∷◌ c s

unfoldable pub strip_end : String → String
unfolding is_space
strip_end String.[] = ""
strip_end (String.◌∷◌ c s) =
    let rest = strip_end s in if is_space c && rest == "" then "" else String.◌∷◌ c rest

unfoldable pub strip : String → String
unfolding strip_start strip_end
strip s = strip_end (strip_start s)

unfoldable pub check_ownership : DatabaseRequest → ReadinessCheck
unfolding strip count_chars
check_ownership request = check_of "Ownership & cost accountability" "governance" 5 (
    leb 2 (count_chars (strip request.metadata.owner))
    && leb 2 (count_chars (strip request.metadata.cost_center)))

-- `CHECKS`
abbrev pub all_checks : List (String × String) → List (DatabaseRequest → ReadinessCheck)
all_checks global_tags =
    check_multi_az
    ∷ check_backup_retention
    ∷ check_deletion_protection
    ∷ check_monitoring
    ∷ check_audit_logging
    ∷ check_approvals
    ∷ check_slo_defined
    ∷ check_tags_complete global_tags
    ∷ check_connection_governance
    ∷ check_ownership
    ∷ []

-- `none` where there is no policy file
unfoldable pub readiness_threshold_for : Option (List (String × ℕ)) → String → ℕ
unfolding get
readiness_threshold_for none environment = 0
readiness_threshold_for (some thresholds) environment = elim (get environment thresholds) [
  | none ↦ 0
  | some t ↦ t
]

unfoldable pub assess_readiness :
    List (String × String) → Option (List (String × ℕ)) → DatabaseRequest → ReadinessAssessment
unfolding readiness_threshold_for environment_name
assess_readiness global_tags thresholds request = record {
  checks = map (λ check. check request) (all_checks global_tags);
  threshold = readiness_threshold_for thresholds (environment_name request.metadata.environment);
}
