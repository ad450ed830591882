-- ===== src/RiskPolicy.antt =====
-- domain/policy.py, with the raw forms that policies/risk/rules/*.yaml has: conditions and actions.
-- A text of the file may be missing where the source reads it by key.
pub mod Operators
pub mod Fields
pub mod Document
pub mod Engine
pub mod Shipped
use db_platform.Base.{String, Bool, Option, List}
use db_platform.Base.Value.{Value}
use db_platform.Risk.{RiskLevel}

-- What evaluation raises: PolicyError, KeyError, ValueError for a level, TypeError.
pub data PolicyError : Type 0 where
  unknown_operator : String → PolicyError
  missing_key : String → PolicyError
  bad_level : Value → PolicyError
  bad_type : PolicyError

pub record Condition : Type 0 where
  pub field : Option String
  pub operator : Option String
  pub value : Option Value

pub record RawRecommendation : Type 0 where
  pub title : Option String
  pub detail : Option String
  pub priority : Option String
  pub category : Option String

pub record Actions : Type 0 where
  pub set_risk_level : Option Value
  pub require_approval : Option Value
  pub recommend : List RawRecommendation

pub record RiskPolicyRule : Type 0 where
  pub id : String
  pub version : String
  pub description : String
  pub conditions : List Condition
  pub actions : Actions
  pub severity : String

-- `actions_applied`: the level that was raised to, and what else the rule did.
pub record Applied : Type 0 where
  pub set_risk_level : Option RiskLevel
  pub require_approval : Bool
  pub recommend : List String

pub record PolicyDecision : Type 0 where
  pub policy_id : String
  pub version : String
  pub description : String
  pub triggered : Bool
  pub severity : String
  pub actions_applied : Applied
