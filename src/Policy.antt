-- ===== src/Policy.antt =====
-- The policies of a database request: policy/models.py of src/dbre_platform, with the raw form of a
-- rule that policies/*.yaml and policies/environments/*.yaml have. A text that the source reads by
-- key may be missing. A violation's message for people, and a rule's own one, are left out.
pub mod Rules
pub mod Engine
pub mod Verdict
pub mod Warnings
pub mod Loading
pub mod RuleSet
pub mod Shipped
use db_platform.Base.{ℕ, String, Bool, Option, List}
use db_platform.Base.Value.{Value}
use db_platform.RiskPolicy.{PolicyError}

pub data Severity : Type 0 where
  error warning : Severity

-- What the evaluation raises: ConfigurationError for an operator, KeyError, ValueError for a
-- severity, and what an operator raises on its operands.
pub data RuleError : Type 0 where
  unknown_operator : String → RuleError
  missing_key : String → RuleError
  bad_severity : String → RuleError
  operand : PolicyError → RuleError

-- `when`
pub record RuleCondition : Type 0 where
  pub field : Option String
  pub operator : Option String
  pub value : Option Value

pub record PolicyRule : Type 0 where
  pub id : Option String
  pub when : Option RuleCondition
  pub field : Option String
  pub operator : Option String
  pub value : Option Value
  pub severity : Option String

pub record Violation : Type 0 where
  pub rule_id : String
  pub field : String
  pub severity : Severity
  pub expected : Value
  pub actual : Value

pub record PolicyResult : Type 0 where
  pub passed : Bool
  pub violations : List Violation
  pub warnings : List Violation
  pub evaluated_rules : ℕ
