-- ===== src/Policy/Shipped/Accepted.antt =====
-- The production requests that the shipped rules accept.
use db_platform.Base.{
  ℕ, String, Bool, true, false, none, some, List, [], ◌∷◌, ◌≡◌, ◌≢◌, refl, ◌≤◌, ◌*◌, inl, inr, Has,
  All, length, arith, eq_iff, Bool-cases, ltb, suc,
}
use db_platform.Base.Frac.{Frac, whole}
use db_platform.Base.Number.{plus, lt_number}
use db_platform.Base.Result.{ok}
use db_platform.Base.Value.{Value, Fields, boolean, number, str, items, get_field}
use db_platform.RiskPolicy.Fields.{split_dots}
use db_platform.RiskPolicy.Operators.{
  Matcher, apply_operator, same_value, has_item, is_in, length_of, count_items, compare_values,
  as_number, same_number, order_numbers,
}
use db_platform.Overrides.{read_field_path, read_parts}
use db_platform.Request.{DatabaseRequest, Platform, platform_name, Approval}
use db_platform.Request.Document.{model_dump, metadata_fields, spec_fields, texts, approval_items}
use db_platform.Policy.{Severity, error, PolicyRule}
use db_platform.Policy.Rules.{evaluate_rule_operator, rule_operator_named, apply_rule_operator}
use db_platform.Policy.Engine.{value_or_null, applies, severity_of, evaluate_document}
use db_platform.Policy.Shipped.{
  error_rule, shipped_prod_rules, count_value, list_value, tagging_sensitive_data_requires_audit,
}
use db_platform.Policy.Shipped.Production.{IsProductionGrade, has_item-texts}
use db_platform.Policy.Engine.{check_rule, check_field, check_rules, Findings, note, nothing_found}

check_rules-none :
    (matches : Matcher) (document : Fields) (rules : List PolicyRule) (f : Findings)
    → All (λ rule. check_rule matches document rule ≡ ok none) rules
    → check_rules matches document rules f ≡ ok f
unfolding check_rules note
check_rules-none matches document [] f h = refl
check_rules-none matches document (rule ∷ rules) f h =
    rw (check_rules, h.0) (check_rules-none matches document rules f h.1)

-- A rule that applies whenever it is asked, and whose operator holds.
rule-Holds :
    (matches : Matcher) (document : Fields) (id field operator : String) (value : Value)
    → evaluate_rule_operator matches operator (read_field_path document field) value ≡ ok true
    → check_rule matches document (error_rule id field operator value) ≡ ok none
unfolding check_rule check_field applies severity_of
rule-Holds matches document id field operator value h = rw (check_rule, check_field, h) refl

-- The operators where they hold.
abbrev Holds : Matcher → String → Value → Value → Type 0
Holds matches operator actual expected =
    evaluate_rule_operator matches operator actual expected ≡ ok true

gte_number-Holds :
    (matches : Matcher) (x y : Frac)
    → y.num * x.den ≤ x.num * y.den
    → Holds matches "gte" (number (plus x)) (number (plus y))
unfolding evaluate_rule_operator rule_operator_named apply_rule_operator apply_operator
    compare_values as_number order_numbers lt_number
gte_number-Holds matches x y h = elim (Bool-cases (ltb (x.num * y.den) (y.num * x.den))) [
  | inl low ↦ absurd (ground arith)
  | inr fine ↦ rw fine (elim (Bool-cases (ltb (y.num * x.den) (x.num * y.den))) [
    | inl over ↦ rw over refl
    | inr equal ↦ rw equal refl
  ])
]

gte_whole-Holds :
    (matches : Matcher) (n least : ℕ)
    → least ≤ n
    → Holds matches "gte" (count_value n) (count_value least)
gte_whole-Holds matches n least h = gte_number-Holds matches (whole n) (whole least) (omega arith)

min_length_one-Holds :
    (matches : Matcher) (approvals : List Approval)
    → 1 ≤ length approvals
    → Holds matches "min_length" (items (approval_items approvals)) (count_value 1)
unfolding evaluate_rule_operator rule_operator_named apply_rule_operator apply_operator length_of
    count_items approval_items
min_length_one-Holds matches [] h = absurd (omega arith)
min_length_one-Holds matches (a ∷ approvals) h =
    gte_whole-Holds matches (suc (count_items (approval_items approvals))) 1 (omega arith)

pub has_item-texts_of :
    (s : String) (xs : List String) → Has s xs → has_item (str s) (texts xs) ≡ true
unfolding has_item same_value
has_item-texts_of s [] h = absurd h
has_item-texts_of s (x ∷ xs) h = ground (arith, eq_iff x s, has_item-texts_of s xs)

contains_text-Holds :
    (matches : Matcher) (s : String) (xs : List String)
    → Has s xs
    → Holds matches "contains" (items (texts xs)) (str s)
unfolding evaluate_rule_operator rule_operator_named apply_rule_operator apply_operator is_in
contains_text-Holds matches s xs h = rw (has_item-texts_of s xs h) refl

supported_platform-Holds :
    (matches : Matcher) (p : Platform)
    → p ≢ Platform.local
    → Holds matches "in" (str (platform_name p)) (list_value ("aws" ∷ "k3s" ∷ []))
unfolding evaluate_rule_operator rule_operator_named apply_rule_operator apply_operator is_in
    has_item same_value platform_name
supported_platform-Holds matches Platform.local h = absurd (h refl)
supported_platform-Holds matches Platform.k3s h = refl
supported_platform-Holds matches Platform.aws h = refl

equals_true-Holds :
    (matches : Matcher) (b : Bool) → b ≡ true → Holds matches "equals" (boolean b) (boolean true)
unfolding evaluate_rule_operator rule_operator_named apply_rule_operator apply_operator same_value
    same_number as_number
equals_true-Holds matches true h = refl
equals_true-Holds matches false h = cc

not_in_text :
    (matches : Matcher) (s : String) (xs : List String)
    → ¬ (Has s xs)
    → Holds matches "not_in" (str s) (list_value xs)
unfolding evaluate_rule_operator rule_operator_named apply_rule_operator apply_operator is_in
not_in_text matches s xs h = elim (Bool-cases (has_item (str s) (texts xs))) [
  | inl found ↦ absurd (h (has_item-texts s xs found))
  | inr fine ↦ rw fine refl
]

asks_classification :
    (matches : Matcher) (request : DatabaseRequest)
    → (b : Bool) × (applies matches (model_dump request) tagging_sensitive_data_requires_audit
        ≡ ok b)
unfolding applies evaluate_rule_operator rule_operator_named apply_rule_operator apply_operator
    is_in read_field_path read_parts split_dots model_dump metadata_fields get_field
asks_classification matches request = (_, refl)

audited-Holds :
    (matches : Matcher) (request : DatabaseRequest)
    → Has "pgaudit" request.spec.extensions
    → Holds matches "contains"
        (read_field_path (model_dump request) "spec.extensions")
        (str "pgaudit")
unfolding read_field_path read_parts split_dots model_dump spec_fields get_field
audited-Holds matches request h = contains_text-Holds matches "pgaudit" request.spec.extensions h

regex-Holds :
    (matches : Matcher) (s : String) (pattern : Value)
    → matches (str s) pattern ≡ ok true
    → Holds matches "regex" (str s) pattern
unfolding evaluate_rule_operator rule_operator_named apply_rule_operator apply_operator
regex-Holds matches s pattern h = rw (evaluate_rule_operator, h) refl

-- A rule whose operator holds finds nothing, whether it applies or not.
condition_open :
    (matches : Matcher) (document : Fields) (rule : PolicyRule) (b : Bool)
    → applies matches document rule ≡ ok b
    → check_field matches document rule ≡ ok none
    → check_rule matches document rule ≡ ok none
unfolding check_rule
condition_open matches document rule b applied fine = elim (Bool-cases b) [
  | inl yes_applies ↦ rw (check_rule, applied, yes_applies) fine
  | inr other ↦ rw (check_rule, applied, other) refl
]

field-Holds :
    (matches : Matcher) (document : Fields) (rule : PolicyRule) (field operator : String)
    (severity : Severity)
    → rule.field ≡ some field
    → rule.operator ≡ some operator
    → severity_of rule.severity ≡ ok severity
    → Holds matches operator (read_field_path document field) (value_or_null rule.value)
    → check_field matches document rule ≡ ok none
unfolding check_field
field-Holds matches document rule field operator severity f o s h =
    rw (check_field, f, o, s, h) refl

audited_anyway :
    (matches : Matcher) (request : DatabaseRequest)
    → Has "pgaudit" request.spec.extensions
    → check_rule matches (model_dump request) tagging_sensitive_data_requires_audit ≡ ok none
unfolding severity_of
audited_anyway matches request h =
    let (b, applied) = asks_classification matches request in
    condition_open matches (model_dump request) tagging_sensitive_data_requires_audit b applied (
      field-Holds matches (model_dump request) tagging_sensitive_data_requires_audit
        "spec.extensions" "contains" error refl refl refl (audited-Holds matches request h))

abbrev pub reserved_names : List String
reserved_names = "admin" ∷ "postgres" ∷ "root" ∷ "template0" ∷ "template1" ∷ "rdsadmin" ∷ []

-- A request that has what production asks for, whose name is not reserved and whose name and cost
-- center match their patterns, is evaluated without an error, and passes without a warning.
pub IsProductionGrade-passed :
    (matches : Matcher) (request : DatabaseRequest)
    → matches (str request.metadata.name) (str "^[a-z][a-z0-9-]{2,49}$") ≡ ok true
    → matches (str request.metadata.cost_center) (str "^CC-[0-9]{3,6}$") ≡ ok true
    → ¬ (Has request.metadata.name reserved_names)
    → IsProductionGrade request
    → evaluate_document matches shipped_prod_rules (model_dump request)
      ≡ ok (record { passed = true; violations = []; warnings = []; evaluated_rules = 13 })
unfolding evaluate_document read_field_path read_parts split_dots model_dump metadata_fields
    spec_fields get_field
IsProductionGrade-passed matches request named costed free h =
    let document = model_dump request in
    let spec = request.spec in
    rw
      (
        evaluate_document,
        check_rules-none matches document shipped_prod_rules nothing_found (
          rule-Holds matches document "naming-convention-format" "metadata.name" "regex"
              (str "^[a-z][a-z0-9-]{2,49}$") (regex-Holds matches request.metadata.name _ named),
          (
            rule-Holds matches document "naming-not-reserved" "metadata.name" "not_in"
                (list_value reserved_names)
                (not_in_text matches request.metadata.name reserved_names free),
            (
              rule-Holds matches document "tagging-cost-center-format" "metadata.cost_center"
                  "regex" (str "^CC-[0-9]{3,6}$")
                  (regex-Holds matches request.metadata.cost_center _ costed),
              (
                audited_anyway matches request h.audited,
                (
                  rule-Holds matches document "prod-platform-supported" "spec.platform" "in"
                      (list_value ("aws" ∷ "k3s" ∷ []))
                      (supported_platform-Holds matches spec.platform h.platform_supported),
                  (
                    rule-Holds matches document "prod-multi-az-required" "spec.multi_az" "equals"
                        (boolean true) (equals_true-Holds matches spec.multi_az h.multi_az_enabled),
                    (
                      rule-Holds matches document "prod-backup-retention-min"
                          "spec.backup_retention_days" "gte" (count_value 30)
                          (gte_whole-Holds matches spec.backup_retention_days 30 h.backups_kept),
                      (
                        rule-Holds matches document "prod-deletion-protection-required"
                            "spec.deletion_protection" "equals" (boolean true)
                            (equals_true-Holds matches spec.deletion_protection
                              h.deletion_protected),
                        (
                          rule-Holds matches document "prod-enhanced-monitoring-required"
                              "spec.enhanced_monitoring" "equals" (boolean true)
                              (equals_true-Holds matches spec.enhanced_monitoring
                                h.enhanced_monitored),
                          (
                            rule-Holds matches document "prod-approval-required" "spec.approvals"
                                "min_length" (count_value 1)
                                (min_length_one-Holds matches spec.approvals h.approved),
                            (
                              rule-Holds matches document "prod-slo-availability-floor"
                                  "spec.slo.availability_target" "gte"
                                  (number (plus (record { num = 999; den = 1000 })))
                                  (gte_number-Holds matches spec.slo.availability_target
                                    (record { num = 999; den = 1000 }) h.availability_met),
                              (
                                rule-Holds matches document "prod-audit-extension-required"
                                    "spec.extensions" "contains" (str "pgaudit")
                                    (contains_text-Holds matches "pgaudit" spec.extensions
                                      h.audited),
                                (
                                  rule-Holds matches document "prod-storage-minimum"
                                      "spec.storage_gb" "gte" (count_value 100)
                                      (gte_whole-Holds matches spec.storage_gb 100 h.storage_floor),
                                  tt,
                                ),
                              ),
                            ),
                          ),
                        ),
                      ),
                    ),
                  ),
                ),
              ),
            ),
          ),
        ),
      )
      refl
