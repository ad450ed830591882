-- ===== src/Request.antt =====
-- config/models.py: the request of a database environment, as it is after pydantic has checked it.
-- A number that a bound of its field keeps from being negative is a natural number.
pub mod Tags
pub mod Document
use db_platform.Base.{ℕ, String, Bool, Option, List, ◌≤◌, ◌<◌, length, concat, [], ◌∷◌}
use db_platform.Base.Frac.{Frac}

pub data Environment : Type 0 where
  dev staging prod : Environment

pub data Platform : Type 0 where
  local k3s aws : Platform

pub data DataClassification : Type 0 where
  public internal confidential restricted : DataClassification

pub record Approval : Type 0 where
  pub approver : String
  pub ticket : String
  pub approved_at : String

pub record SloTargets : Type 0 where
  pub availability_target : Frac
  pub latency_p99_ms : ℕ
  pub backup_rpo_hours : Frac
  pub recovery_rto_hours : Frac

pub record KubernetesResources : Type 0 where
  pub cpu_request : String
  pub memory_request : String
  pub cpu_limit : String
  pub memory_limit : String

pub record RequestMetadata : Type 0 where
  pub name : String
  pub environment : Environment
  pub owner : String
  pub cost_center : String
  pub data_classification : DataClassification

pub record DatabaseSpec : Type 0 where
  pub platform : Platform
  pub engine_version : String
  pub instance_class : String
  pub storage_gb : ℕ
  pub namespace : String
  pub storage_class : Option String
  pub instances : ℕ
  pub resources : KubernetesResources
  pub multi_az : Bool
  pub backup_retention_days : ℕ
  pub deletion_protection : Bool
  pub enhanced_monitoring : Bool
  pub connection_limit : ℕ
  pub statement_timeout_ms : ℕ
  pub idle_in_transaction_timeout_ms : ℕ
  pub extensions : List String
  pub tags : List (String × String)
  pub approvals : List Approval
  pub slo : SloTargets

-- `api_version`, `kind` and `engine` have one value only.
pub record DatabaseRequest : Type 0 where
  pub metadata : RequestMetadata
  pub spec : DatabaseSpec

unfoldable pub environment_name : Environment → String
environment_name dev = "dev"
environment_name staging = "staging"
environment_name prod = "prod"

unfoldable pub platform_name : Platform → String
platform_name local = "local"
platform_name k3s = "k3s"
platform_name aws = "aws"

unfoldable pub classification_name : DataClassification → String
classification_name public = "public"
classification_name internal = "internal"
classification_name confidential = "confidential"
classification_name restricted = "restricted"

unfoldable pub full_name : DatabaseRequest → String
unfolding environment_name
full_name request =
    concat (request.metadata.name ∷ "-" ∷ environment_name request.metadata.environment ∷ [])
