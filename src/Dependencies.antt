-- ===== src/Dependencies.antt =====
-- dependencies/config.py of src/change_risk_engine, the configured dependencies of the applications,
-- with the node ids of dependencies/graph_builder.py. Reading the YAML file is a library.
pub mod Collected
pub mod Configured
pub mod Total
pub mod Edges
pub mod References
use db_platform.Base.{String, Bool, Option, none, some, List, [], ◌∷◌, ◌==◌, concat, first}
use db_platform.Base.Result.{Result, ok, err}
use db_platform.RiskPolicy.Fields.{split_dots}

-- ChangeRiskEngineError for a reference that does not have three parts, and the KeyError of
-- `add_edge`.
pub data BuildError : Type 0 where
  bad_reference : String → BuildError
  no_endpoint : BuildError

pub record TableRef : Type 0 where
  pub database : String
  pub schema : String
  pub table : String

unfoldable pub qualified : TableRef → String
qualified ref = concat (ref.database ∷ "." ∷ ref.schema ∷ "." ∷ ref.table ∷ [])

-- `TableRef.parse`
unfoldable pub parse_ref : String → Result BuildError TableRef
unfolding split_dots
parse_ref raw = elim (split_dots raw) [
  | [] ↦ err (bad_reference raw)
  | database ∷ more ↦ elim more [
    | [] ↦ err (bad_reference raw)
    | schema ∷ more' ↦ elim more' [
      | [] ↦ err (bad_reference raw)
      | table ∷ rest ↦ elim rest [
        | [] ↦ ok (record { database = database; schema = schema; table = table })
        | _ ∷ _ ↦ err (bad_reference raw)
      ]
    ]
  ]
]

pub record ServiceDependency : Type 0 where
  pub name : String
  pub type : String
  pub production : Bool
  pub critical : Bool
  pub owner : Option String
  pub reads : List String
  pub writes : List String

pub record ReplicationEdge : Type 0 where
  pub source : String
  pub target : String
  pub mechanism : String
  pub pipeline_name : Option String

pub record ApiDependency : Type 0 where
  pub name : String
  pub service : String
  pub tables : List String

pub record DatabaseCriticality : Type 0 where
  pub name : String
  pub production : Bool
  pub critical : Bool

pub record AppDependencyConfig : Type 0 where
  pub databases : List DatabaseCriticality
  pub services : List ServiceDependency
  pub replication : List ReplicationEdge
  pub apis : List ApiDependency

unfoldable pub database_criticality : AppDependencyConfig → String → Option DatabaseCriticality
database_criticality config name = first (λ d. d.name == name) config.databases

unfoldable pub table_node_id : String → String → String → String
table_node_id database schema table = concat ("table:" ∷ database ∷ "." ∷ schema ∷ "." ∷ table ∷ [])

unfoldable pub view_node_id : String → String → String → String
view_node_id database schema view = concat ("view:" ∷ database ∷ "." ∷ schema ∷ "." ∷ view ∷ [])

unfoldable pub service_node_id : String → String
service_node_id name = concat ("service:" ∷ name ∷ [])

unfoldable pub api_node_id : String → String
api_node_id name = concat ("api:" ∷ name ∷ [])

unfoldable pub pipeline_node_id : String → String
pipeline_node_id name = concat ("pipeline:" ∷ name ∷ [])

unfoldable pub database_id : String → String
database_id name = concat ("database:" ∷ name ∷ [])
