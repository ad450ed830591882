-- ===== src/Policy/Rules.antt =====
-- The operators of policy/rules.py of src/dbre_platform. They are those of the risk policies, and
-- one more.
use db_platform.Base.{String, Bool, Option, none, some, List, [], ◌∷◌, ◌==◌, if◌then◌else◌}
use db_platform.Base.Frac.{whole}
use db_platform.Base.Number.{plus}
use db_platform.Base.Result.{Result, ok, err}
use db_platform.Base.Value.{Value, number}
use db_platform.RiskPolicy.{PolicyError}
use db_platform.RiskPolicy.Operators
use db_platform.RiskPolicy.Operators.{
  Operator, Matcher, apply_operator, compare_values, length_of, when_order, unless_null, at_most,
}
use db_platform.Policy.{RuleError, unknown_operator, operand}

-- An operator that both packages have, or `max_length`.
pub data RuleOperator : Type 0 where
  common : Operator → RuleOperator
  max_length : RuleOperator

-- `OPERATORS`
abbrev pub rule_operators : List (String × RuleOperator)
rule_operators =
    ("equals", common Operators.equals)
    ∷ ("not_equals", common Operators.not_equals)
    ∷ ("gte", common Operators.gte)
    ∷ ("lte", common Operators.lte)
    ∷ ("gt", common Operators.gt)
    ∷ ("lt", common Operators.lt)
    ∷ ("min_length", common Operators.min_length)
    ∷ ("max_length", max_length)
    ∷ ("in", common Operators.is_member)
    ∷ ("not_in", common Operators.is_no_member)
    ∷ ("contains", common Operators.contains)
    ∷ ("regex", common Operators.regex)
    ∷ []

unfoldable pub rule_operator_named : String → List (String × RuleOperator) → Option RuleOperator
rule_operator_named name [] = none
rule_operator_named name ((n, op) ∷ ops) =
    if n == name then some op else rule_operator_named name ops

unfoldable pub apply_rule_operator :
    Matcher → RuleOperator → Value → Value → Result PolicyError Bool
unfolding apply_operator compare_values length_of
apply_rule_operator matches (common op) actual expected = apply_operator matches op actual expected
apply_rule_operator matches max_length actual expected =
    unless_null actual (elim (length_of actual) [
      | err e ↦ err e
      | ok n ↦ when_order at_most (compare_values (number (plus (whole n))) expected)
    ])

unfoldable pub evaluate_rule_operator : Matcher → String → Value → Value → Result RuleError Bool
unfolding rule_operator_named apply_rule_operator
evaluate_rule_operator matches operator actual expected =
    elim (rule_operator_named operator rule_operators) [
      | none ↦ err (unknown_operator operator)
      | some op ↦ elim (apply_rule_operator matches op actual expected) [
        | err e ↦ err (operand e)
        | ok satisfied ↦ ok satisfied
      ]
    ]
