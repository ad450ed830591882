-- ===== src/Risk.antt =====
-- domain/risk.py, with the enumerations of domain/enums.py that an assessment carries, and the
-- context and the helpers of risk/factors.py. Every factor score is a whole number. The evidence is
-- kept as the facts that its descriptions are printed from; the reasons, which no code reads, are
-- left out.
pub mod Factors
pub mod Recommendations
pub mod Weights
pub mod Engine
use db_platform.Base.{
  ℕ, ◌+◌, ◌*◌, ◌≡◌, refl, sym, ap, ◌∙◌, ◌↔◌, String, Bool, true, false, Option, none, some, List,
  [], ◌∷◌, arith, leb, ltb, eqb, if◌then◌else◌, ◌==◌,
}
use db_platform.Base.Dict
use db_platform.Base.Frac.{Frac, whole, mul_frac, round_frac}
use db_platform.Change.{Change, DatabaseChangeOperation, DatabaseOperation, qualified_table}
use db_platform.BlastRadius.{BlastRadius, Scope}
use db_platform.Metadata.{TableMetadata, QueryStatistics}

pub data RiskLevel : Type 0 where
  low medium high critical : RiskLevel

-- `rank`, by which the levels are compared
unfoldable pub rank : RiskLevel → ℕ
rank RiskLevel.low = 0
rank RiskLevel.medium = 1
rank RiskLevel.high = 2
rank RiskLevel.critical = 3

-- `>` on levels
unfoldable pub above : RiskLevel → RiskLevel → Bool
unfolding rank
above a b = ltb (rank b) (rank a)

pub data RiskFactorType : Type 0 where
  change_complexity data_volume table_size lock_risk index_impact query_impact : RiskFactorType
  dependency_count criticality production_usage replication_impact : RiskFactorType
  backward_compatibility rollback_difficulty deployment_frequency : RiskFactorType
  historical_incidents recent_change_activity observability test_coverage : RiskFactorType

-- The enumeration's values, by which its members are named in the weights file.
unfoldable pub value_of : RiskFactorType → String
value_of RiskFactorType.change_complexity = "change_complexity"
value_of RiskFactorType.data_volume = "data_volume"
value_of RiskFactorType.table_size = "table_size"
value_of RiskFactorType.lock_risk = "lock_risk"
value_of RiskFactorType.index_impact = "index_impact"
value_of RiskFactorType.query_impact = "query_impact"
value_of RiskFactorType.dependency_count = "dependency_count"
value_of RiskFactorType.criticality = "criticality"
value_of RiskFactorType.production_usage = "production_usage"
value_of RiskFactorType.replication_impact = "replication_impact"
value_of RiskFactorType.backward_compatibility = "backward_compatibility"
value_of RiskFactorType.rollback_difficulty = "rollback_difficulty"
value_of RiskFactorType.deployment_frequency = "deployment_frequency"
value_of RiskFactorType.historical_incidents = "historical_incidents"
value_of RiskFactorType.recent_change_activity = "recent_change_activity"
value_of RiskFactorType.observability = "observability"
value_of RiskFactorType.test_coverage = "test_coverage"

-- `RiskFactorType(name)`, where `none` is its ValueError
unfoldable pub factor_named : String → List RiskFactorType → Option RiskFactorType
unfolding value_of
factor_named name [] = none
factor_named name (t ∷ ts) = if value_of t == name then some t else factor_named name ts

abbrev pub all_factor_types : List RiskFactorType
all_factor_types =
    RiskFactorType.change_complexity ∷ RiskFactorType.data_volume ∷ RiskFactorType.table_size
    ∷ RiskFactorType.lock_risk ∷ RiskFactorType.index_impact ∷ RiskFactorType.query_impact
    ∷ RiskFactorType.dependency_count ∷ RiskFactorType.criticality ∷ RiskFactorType.production_usage
    ∷ RiskFactorType.replication_impact ∷ RiskFactorType.backward_compatibility
    ∷ RiskFactorType.rollback_difficulty ∷ RiskFactorType.deployment_frequency
    ∷ RiskFactorType.historical_incidents ∷ RiskFactorType.recent_change_activity
    ∷ RiskFactorType.observability ∷ RiskFactorType.test_coverage ∷ []

unfoldable pub same_factor : RiskFactorType → RiskFactorType → Bool
unfolding value_of
same_factor a b = value_of a == value_of b

pub data Evidence : Type 0 where
  lock_behaviour : DatabaseChangeOperation → Evidence
  breaking narrowing : DatabaseOperation → Evidence
  critical_dependency : String → Evidence
  scope_estimate : Scope → Evidence
  production_resource : String → Evidence
  size_on_disk rows : String → ℕ → Evidence
  scan_heavy : String → ℕ → ℕ → Evidence
  replicates : String → Evidence
  hard_to_reverse : DatabaseChangeOperation → Evidence
  incident : String → Evidence

pub data Label : Type 0 where
  low medium high critical : Label

unfoldable pub label_of : ℕ → Label
label_of score =
    if leb 75 score
    then Label.critical
    else if leb 50 score
    then Label.high
    else if leb 25 score
    then Label.medium
    else Label.low

pub record RiskFactor : Type 0 where
  pub factor_type : RiskFactorType
  pub label : Label
  pub score : ℕ
  pub weight : Frac
  pub evidence : List Evidence

unfoldable pub contribution : RiskFactor → Frac
unfolding round_frac
contribution f = round_frac 4 (mul_frac (whole f.score) f.weight)

-- `_factor`: the label is that of the score before it is cut at 100.
unfoldable pub make_factor : RiskFactorType → ℕ → Frac → List Evidence → RiskFactor
unfolding label_of
make_factor factor_type score weight evidence = record {
  factor_type = factor_type;
  label = label_of score;
  score = if leb 100 score then 100 else score;
  weight = weight;
  evidence = evidence;
}

pub record FactorContext : Type 0 where
  pub change : Change
  pub operations : List DatabaseChangeOperation
  pub tables : List (String × TableMetadata)
  pub blast_radius : Option BlastRadius
  pub query_stats : List (String × QueryStatistics)
  pub historical_incidents : List (String × List String)

unfoldable pub tables_of_operations :
    List (String × TableMetadata) → List DatabaseChangeOperation → List TableMetadata
unfolding qualified_table
tables_of_operations tables [] = []
tables_of_operations tables (op ∷ ops) =
    let rest = tables_of_operations tables ops in
    elim (qualified_table op) [
      | none ↦ rest
      | some name ↦ elim (Dict.get name tables) [ none ↦ rest | some t ↦ t ∷ rest ]
    ]

unfoldable pub target_tables : FactorContext → List TableMetadata
unfolding tables_of_operations
target_tables ctx = tables_of_operations ctx.tables ctx.operations
