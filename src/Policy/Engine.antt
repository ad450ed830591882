-- ===== src/Policy/Engine.antt =====
-- `PolicyEngine.evaluate` of policy/engine.py of src/dbre_platform, on the rules that apply to the
-- environment of the request.
use db_platform.Base.{
  String, Bool, true, false, Option, none, some, List, [], ◌∷◌, ◌++◌, ◌==◌, if◌then◌else◌, is_empty,
  length,
}
use db_platform.Base.Result.{Result, ok, err}
use db_platform.Base.Value.{Value, Fields, null}
use db_platform.RiskPolicy.Operators.{Matcher}
use db_platform.Overrides.{read_field_path}
use db_platform.Policy.{
  Severity, error, warning, RuleError, missing_key, bad_severity, PolicyRule, Violation,
  PolicyResult,
}
use db_platform.Policy.Rules.{evaluate_rule_operator}

-- `d.get("value")`
abbrev pub value_or_null : Option Value → Value
value_or_null none = null
value_or_null (some v) = v

-- Whether the condition of a rule holds, if it has one.
unfoldable pub applies : Matcher → Fields → PolicyRule → Result RuleError Bool
unfolding evaluate_rule_operator read_field_path
applies matches document rule = elim rule.when [
  | none ↦ ok true
  | some condition ↦ elim condition.field [
    | none ↦ err (missing_key "field")
    | some path ↦ elim condition.operator [
      | none ↦ err (missing_key "operator")
      | some op ↦
          evaluate_rule_operator matches op (read_field_path document path)
            (value_or_null condition.value)
    ]
  ]
]

-- `Severity(rule.get("severity", "error"))`
unfoldable pub severity_of : Option String → Result RuleError Severity
severity_of none = ok error
severity_of (some s) =
    if s == "error" then ok error else if s == "warning" then ok warning else err (bad_severity s)

-- What a rule that applies finds: the violation, if its field is not as it has to be.
unfoldable pub check_field : Matcher → Fields → PolicyRule → Result RuleError (Option Violation)
unfolding severity_of evaluate_rule_operator read_field_path
check_field matches document rule = elim rule.field [
  | none ↦ err (missing_key "field")
  | some path ↦ elim rule.operator [
    | none ↦ err (missing_key "operator")
    | some op ↦ elim (severity_of rule.severity) [
      | err e ↦ err e
      | ok severity ↦
          let actual = read_field_path document path in
          elim (evaluate_rule_operator matches op actual (value_or_null rule.value)) [
            | err e ↦ err e
            | ok satisfied ↦
                if satisfied
                then ok none
                else ok (
                    some (record {
                      rule_id = elim rule.id [ none ↦ "<unnamed-rule>" | some id ↦ id ];
                      field = path;
                      severity = severity;
                      expected = value_or_null rule.value;
                      actual = actual;
                    }))
          ]
    ]
  ]
]

-- One round of the loop, up to the two lists.
unfoldable pub check_rule : Matcher → Fields → PolicyRule → Result RuleError (Option Violation)
unfolding applies check_field
check_rule matches document rule = elim (applies matches document rule) [
  | err e ↦ err e
  | ok holds ↦ elim holds [ true ↦ check_field matches document rule | false ↦ ok none ]
]

-- The two lists that the loop fills.
pub record Findings : Type 0 where
  pub violations : List Violation
  pub warnings : List Violation

unfoldable pub note : Option Violation → Findings → Findings
note none f = f
note (some v) f = elim v.severity [
  | error ↦ record f { violations = f.violations ++ v ∷ [] }
  | warning ↦ record f { warnings = f.warnings ++ v ∷ [] }
]

unfoldable pub check_rules :
    Matcher → Fields → List PolicyRule → Findings → Result RuleError Findings
unfolding check_rule note
check_rules matches document [] f = ok f
check_rules matches document (rule ∷ rules) f = elim (check_rule matches document rule) [
  | err e ↦ err e
  | ok v ↦ check_rules matches document rules (note v f)
]

abbrev pub nothing_found : Findings
nothing_found = record { violations = []; warnings = [] }

abbrev pub result_of : List PolicyRule → Findings → PolicyResult
result_of rules f = record {
  passed = is_empty f.violations;
  violations = f.violations;
  warnings = f.warnings;
  evaluated_rules = length rules;
}

unfoldable pub evaluate_document :
    Matcher → List PolicyRule → Fields → Result RuleError PolicyResult
unfolding check_rules
evaluate_document matches rules document = elim (check_rules matches document rules nothing_found) [
  | err e ↦ err e
  | ok f ↦ ok (result_of rules f)
]
