-- ===== src/Risk/Recommendations.antt =====
-- risk/recommendations.py and domain/recommendation.py: the mitigations that factors call for. A
-- recommendation's id is left out, and of the details that name resources the names are kept.
pub mod Required
use db_platform.Base.{
  ℕ, String, Bool, true, false, Option, none, some, List, [], ◌∷◌, ◌++◌, leb, any, first, is_empty,
  ◌&&◌, ◌||◌, if◌then◌else◌,
}
use db_platform.Change.{DatabaseChangeOperation}
use db_platform.Change.Kinds.{is_create_index}
use db_platform.BlastRadius.{BlastRadius}
use db_platform.Risk.{RiskFactor, RiskFactorType, same_factor}

pub data Priority : Type 0 where
  required recommended optional : Priority

pub record Recommendation : Type 0 where
  pub title : String
  pub detail : List String
  pub priority : Priority
  pub category : String
  pub related_factor : Option RiskFactorType

-- `_factor`: the first factor of a type.
unfoldable pub find_factor : List RiskFactor → RiskFactorType → Option RiskFactor
unfolding same_factor
find_factor factors t = first (λ f. same_factor f.factor_type t) factors

-- `factor and factor.score >= bound`
unfoldable pub scores_at_least : List RiskFactor → RiskFactorType → ℕ → Bool
unfolding find_factor
scores_at_least factors t bound = elim (find_factor factors t) [
  | none ↦ false
  | some f ↦ leb bound f.score
]

unfoldable pub when : Bool → List Recommendation → List Recommendation
when b recs = if b then recs else []

abbrev pub required_if : Bool → Priority
required_if b = if b then Priority.required else Priority.recommended

unfoldable pub lock_recommendations : List RiskFactor → Bool → List Recommendation
unfolding scores_at_least when
lock_recommendations factors production =
    when (scores_at_least factors RiskFactorType.lock_risk 50) (
      record {
        title = "Deploy during a maintenance window";
        detail =
            "Deploy during a low-traffic maintenance window; this change holds a lock that can block application queries."
            ∷ [];
        priority = required_if (scores_at_least factors RiskFactorType.lock_risk 75 && production);
        category = "deployment";
        related_factor = some RiskFactorType.lock_risk;
      }
      ∷ record {
        title = "Monitor database locks";
        detail =
            "Monitor pg_locks / blocking queries during and immediately after deployment." ∷ [];
        priority = Priority.recommended;
        category = "monitoring";
        related_factor = some RiskFactorType.lock_risk;
      }
      ∷ [])

unfoldable pub index_recommendations :
    List DatabaseChangeOperation → List RiskFactor → Bool → List Recommendation
unfolding scores_at_least when
index_recommendations operations factors production =
    when (any (λ (op : DatabaseChangeOperation). is_create_index op.operation) operations) (
      record {
        title = "Use CREATE INDEX CONCURRENTLY";
        detail =
            "Rewrite this as CREATE INDEX CONCURRENTLY to avoid blocking writes on the target table for the full build duration."
            ∷ [];
        priority =
            required_if (production && scores_at_least factors RiskFactorType.index_impact 90);
        category = "deployment";
        related_factor = some RiskFactorType.index_impact;
      }
      ∷ [])

unfoldable pub compatibility_recommendations : List RiskFactor → Bool → List Recommendation
unfolding scores_at_least when
compatibility_recommendations factors production =
    when (scores_at_least factors RiskFactorType.backward_compatibility 55) (
      record {
        title = "Verify application compatibility";
        detail =
            "Confirm every currently-deployed version of dependent applications/services is compatible with this change before deploying (this change is not purely additive)."
            ∷ [];
        priority = required_if production;
        category = "testing";
        related_factor = some RiskFactorType.backward_compatibility;
      }
      ∷ [])

unfoldable pub pipelines_of : Option BlastRadius → List String
pipelines_of none = "affected pipelines" ∷ []
pipelines_of (some br) =
    if is_empty br.affected_data_pipelines
    then "affected pipelines" ∷ []
    else br.affected_data_pipelines

unfoldable pub replication_recommendations :
    List RiskFactor → Option BlastRadius → List Recommendation
unfolding scores_at_least when pipelines_of
replication_recommendations factors blast_radius =
    when (scores_at_least factors RiskFactorType.replication_impact 45) (
      record {
        title = "Monitor replication lag";
        detail =
            "Monitor replication/ETL lag after deployment and notify the owner(s) of "
            ∷ pipelines_of blast_radius;
        priority = Priority.recommended;
        category = "monitoring";
        related_factor = some RiskFactorType.replication_impact;
      }
      ∷ [])

unfoldable pub criticality_recommendations :
    List RiskFactor → Option BlastRadius → Bool → List Recommendation
unfolding scores_at_least when
criticality_recommendations factors none production = []
criticality_recommendations factors (some br) production =
    when (scores_at_least factors RiskFactorType.criticality 55) (
      record {
        title = "Notify critical service owners";
        detail =
            "Notify the owner(s) of critical downstream service(s) before deploying: "
            ∷ br.critical_dependencies;
        priority = required_if production;
        category = "review";
        related_factor = some RiskFactorType.criticality;
      }
      ∷ [])

unfoldable pub rollback_recommendations : List RiskFactor → Bool → List Recommendation
unfolding scores_at_least when
rollback_recommendations factors production =
    when (scores_at_least factors RiskFactorType.rollback_difficulty 55) (
      record {
        title = "Prepare a tested rollback plan";
        detail =
            "This change is not trivially reversible -- write and test a rollback/recovery plan before deploying, not after something goes wrong."
            ∷ [];
        priority = required_if production;
        category = "rollback";
        related_factor = some RiskFactorType.rollback_difficulty;
      }
      ∷ [])

unfoldable pub size_recommendations : List RiskFactor → List Recommendation
unfolding scores_at_least when
size_recommendations factors =
    when
      (scores_at_least factors RiskFactorType.table_size 55
        || scores_at_least factors RiskFactorType.data_volume 65)
      (record {
        title = "Run during off-peak hours";
        detail =
            "The affected table is large enough that this operation may take significant time -- run during off-peak hours and confirm statement_timeout is generous enough to complete."
            ∷ [];
        priority = Priority.recommended;
        category = "deployment";
        related_factor = some RiskFactorType.table_size;
      }
        ∷ [])

unfoldable pub validation_recommendations : List DatabaseChangeOperation → List Recommendation
validation_recommendations operations =
    if is_empty operations
    then []
    else record {
      title = "Validate query performance after deployment";
      detail =
          "Compare query plans/latency for the affected table(s) before and after deployment." ∷ [];
      priority = Priority.optional;
      category = "monitoring";
      related_factor = none;
    }
      ∷ []

unfoldable pub generate_recommendations :
    List DatabaseChangeOperation → List RiskFactor → Option BlastRadius → Bool → List Recommendation
unfolding lock_recommendations index_recommendations compatibility_recommendations
    replication_recommendations criticality_recommendations rollback_recommendations
    size_recommendations validation_recommendations
generate_recommendations operations factors blast_radius production =
    lock_recommendations factors production
    ++ (index_recommendations operations factors production
        ++ (compatibility_recommendations factors production
            ++ (replication_recommendations factors blast_radius
                ++ (criticality_recommendations factors blast_radius production
                    ++ (rollback_recommendations factors production
                        ++ (size_recommendations factors
                            ++ validation_recommendations operations))))))
