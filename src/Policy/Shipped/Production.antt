-- ===== src/Policy/Shipped/Production.antt =====
-- What a production request that passes the shipped rules has: the fields of the request
-- themselves, not the rules that test them.
use db_platform.Base.{
  ℕ, String, Bool, true, false, some, List, [], ◌∷◌, ◌≡◌, ◌≢◌, refl, ◌≤◌, ◌*◌, inl, inr, Has, Any,
  Any-Has, item_at, item_at-Has, length, arith, eq_iff, Bool-cases, ltb,
}
use db_platform.Base.Frac.{Frac, whole}
use db_platform.Base.Number.{plus, lt_number}
use db_platform.Base.Result.{ok}
use db_platform.Base.Value.{Value, Fields, boolean, number, str, items, get_field}
use db_platform.RiskPolicy.Fields.{split_dots}
use db_platform.RiskPolicy.Operators.{
  Matcher, apply_operator, same_value, has_item, is_in, length_of, count_items, compare_values,
  as_number, same_number, order_numbers,
}
use db_platform.Overrides.{read_field_path, read_parts}
use db_platform.Request.{DatabaseRequest, Platform, platform_name, Approval}
use db_platform.Request.Document.{model_dump, metadata_fields, spec_fields, texts, approval_items}
use db_platform.Policy.{error, PolicyRule, Violation}
use db_platform.Policy.Rules.{evaluate_rule_operator, rule_operator_named, apply_rule_operator}
use db_platform.Policy.Engine.{applies, severity_of}
use db_platform.Policy.Verdict.{IsViolation}
use db_platform.Policy.Shipped.{error_rule, shipped_prod_rules, count_value, list_value}

-- No ERROR rule of the list is broken.
abbrev pub Complies : Matcher → List PolicyRule → Fields → Type 0
Complies matches rules document =
    (v : Violation)
    → v.severity ≡ error
    → ¬ (Any (λ rule. IsViolation matches document rule v) rules)

-- An ERROR rule without a condition holds of a document that complies.
pub rule_of :
    (matches : Matcher) (rules : List PolicyRule) (document : Fields) (n : ℕ)
    (id field operator : String) (value : Value)
    → Complies matches rules document
    → item_at n rules ≡ some (error_rule id field operator value)
    → evaluate_rule_operator matches operator (read_field_path document field) value ≢ ok false
unfolding applies severity_of
rule_of matches rules document n id field operator value c h bad =
    let v : Violation = record {
      rule_id = id;
      field = field;
      severity = error;
      expected = value;
      actual = read_field_path document field;
    } in
    c v refl (
      Any-Has (λ rule. IsViolation matches document rule v) rules
        (error_rule id field operator value) (item_at-Has n rules _ h)
        (record {
          operator = operator;
          named = refl;
          applied = refl;
          field_is = refl;
          operator_is = refl;
          severity_is = refl;
          expected_is = refl;
          actual_is = refl;
          unsatisfied = bad;
        }))

-- The operators that the rules use, where they do not hold.
abbrev pub Fails : Matcher → String → Value → Value → Type 0
Fails matches operator actual expected =
    evaluate_rule_operator matches operator actual expected ≡ ok false

equals_true :
    (matches : Matcher) (b : Bool)
    → ¬ (Fails matches "equals" (boolean b) (boolean true))
    → b ≡ true
unfolding evaluate_rule_operator rule_operator_named apply_rule_operator apply_operator same_value
    same_number as_number
equals_true matches true h = refl
equals_true matches false h = absurd (h refl)

gte_number :
    (matches : Matcher) (x y : Frac)
    → ¬ (Fails matches "gte" (number (plus x)) (number (plus y)))
    → y.num * x.den ≤ x.num * y.den
unfolding evaluate_rule_operator rule_operator_named apply_rule_operator apply_operator
    compare_values as_number order_numbers lt_number
gte_number matches x y h = elim (Bool-cases (ltb (x.num * y.den) (y.num * x.den))) [
  | inl low ↦ absurd (h (rw low refl))
  | inr fine ↦ ground arith
]

gte_whole :
    (matches : Matcher) (n least : ℕ)
    → ¬ (Fails matches "gte" (count_value n) (count_value least))
    → least ≤ n
gte_whole matches n least h = omega (arith, gte_number matches (whole n) (whole least) h)

min_length_one :
    (matches : Matcher) (approvals : List Approval)
    → ¬ (Fails matches "min_length" (items (approval_items approvals)) (count_value 1))
    → 1 ≤ length approvals
unfolding evaluate_rule_operator rule_operator_named apply_rule_operator apply_operator
    compare_values as_number order_numbers lt_number length_of count_items approval_items
min_length_one matches [] h = absurd (h refl)
min_length_one matches (a ∷ approvals) h = omega arith

pub has_item-texts : (s : String) (xs : List String) → has_item (str s) (texts xs) ≡ true → Has s xs
unfolding has_item same_value
has_item-texts s [] h = cc
has_item-texts s (x ∷ xs) h = ground (arith, eq_iff x s, has_item-texts s xs)

contains_text :
    (matches : Matcher) (s : String) (xs : List String)
    → ¬ (Fails matches "contains" (items (texts xs)) (str s))
    → Has s xs
unfolding evaluate_rule_operator rule_operator_named apply_rule_operator apply_operator is_in
contains_text matches s xs h = elim (Bool-cases (has_item (str s) (texts xs))) [
  | inl found ↦ has_item-texts s xs found
  | inr none_there ↦ absurd (h (rw none_there refl))
]

supported_platform :
    (matches : Matcher) (p : Platform)
    → ¬ (Fails matches "in" (str (platform_name p)) (list_value ("aws" ∷ "k3s" ∷ [])))
    → p ≢ Platform.local
unfolding evaluate_rule_operator rule_operator_named apply_rule_operator apply_operator is_in
    has_item same_value platform_name
supported_platform matches Platform.local h = absurd (h refl)
supported_platform matches Platform.k3s h = λ e. cc
supported_platform matches Platform.aws h = λ e. cc

-- What policies/environments/prod.yaml asks for.
pub record IsProductionGrade (request : DatabaseRequest) : Type 0 where
  pub platform_supported : request.spec.platform ≢ Platform.local
  pub multi_az_enabled : request.spec.multi_az ≡ true
  pub backups_kept : 30 ≤ request.spec.backup_retention_days
  pub deletion_protected : request.spec.deletion_protection ≡ true
  pub enhanced_monitored : request.spec.enhanced_monitoring ≡ true
  pub approved : 1 ≤ length request.spec.approvals
  pub availability_met :
      999 * request.spec.slo.availability_target.den
      ≤ request.spec.slo.availability_target.num * 1000
  pub audited : Has "pgaudit" request.spec.extensions
  pub storage_floor : 100 ≤ request.spec.storage_gb

pub Complies-IsProductionGrade :
    (matches : Matcher) (request : DatabaseRequest)
    → Complies matches shipped_prod_rules (model_dump request)
    → IsProductionGrade request
unfolding read_field_path read_parts split_dots model_dump metadata_fields spec_fields get_field
Complies-IsProductionGrade matches request c =
    let spec = request.spec in
    record {
      platform_supported = supported_platform matches spec.platform (
          rule_of matches shipped_prod_rules (model_dump request) 4 "prod-platform-supported"
            "spec.platform" "in" (list_value ("aws" ∷ "k3s" ∷ [])) c refl);
      multi_az_enabled = equals_true matches spec.multi_az (
          rule_of matches shipped_prod_rules (model_dump request) 5 "prod-multi-az-required"
            "spec.multi_az" "equals" (boolean true) c refl);
      backups_kept = gte_whole matches spec.backup_retention_days 30 (
          rule_of matches shipped_prod_rules (model_dump request) 6 "prod-backup-retention-min"
            "spec.backup_retention_days" "gte" (count_value 30) c refl);
      deletion_protected = equals_true matches spec.deletion_protection (
          rule_of matches shipped_prod_rules (model_dump request) 7
            "prod-deletion-protection-required" "spec.deletion_protection" "equals" (boolean true) c
            refl);
      enhanced_monitored = equals_true matches spec.enhanced_monitoring (
          rule_of matches shipped_prod_rules (model_dump request) 8
            "prod-enhanced-monitoring-required" "spec.enhanced_monitoring" "equals" (boolean true) c
            refl);
      approved = min_length_one matches spec.approvals (
          rule_of matches shipped_prod_rules (model_dump request) 9 "prod-approval-required"
            "spec.approvals" "min_length" (count_value 1) c refl);
      availability_met =
          gte_number matches spec.slo.availability_target (record { num = 999; den = 1000 })
            (rule_of matches shipped_prod_rules (model_dump request) 10
              "prod-slo-availability-floor" "spec.slo.availability_target" "gte"
              (number (plus (record { num = 999; den = 1000 }))) c refl);
      audited = contains_text matches "pgaudit" spec.extensions (
          rule_of matches shipped_prod_rules (model_dump request) 11 "prod-audit-extension-required"
            "spec.extensions" "contains" (str "pgaudit") c refl);
      storage_floor = gte_whole matches spec.storage_gb 100 (
          rule_of matches shipped_prod_rules (model_dump request) 12 "prod-storage-minimum"
            "spec.storage_gb" "gte" (count_value 100) c refl);
    }
