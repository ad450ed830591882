-- ===== src/Risk/Recommendations/Required.antt =====
-- The priorities of the recommendations of risk/recommendations.py.
use db_platform.Base.{◌≢◌, false, Option, none, some, List, [], ◌∷◌, ◌++◌, arith, All, All-append}
use db_platform.Change.{DatabaseChangeOperation}
use db_platform.BlastRadius.{BlastRadius}
use db_platform.Risk.{RiskFactor}
use db_platform.Risk.Recommendations.{
  Priority, Recommendation, when, lock_recommendations, index_recommendations,
  compatibility_recommendations, replication_recommendations, criticality_recommendations,
  rollback_recommendations, size_recommendations, validation_recommendations,
  generate_recommendations,
}

abbrev NotRequired : Recommendation → Type 0
NotRequired r = r.priority ≢ Priority.required

abbrev NoneRequired : List Recommendation → Type 0
NoneRequired recs = All NotRequired recs

append-NoneRequired :
    (xs ys : List Recommendation) → NoneRequired xs → NoneRequired ys → NoneRequired (xs ++ ys)
append-NoneRequired xs ys h k = All-append NotRequired xs ys h k

lock-NoneRequired : (fs : List RiskFactor) → NoneRequired (lock_recommendations fs false)
unfolding lock_recommendations when
lock-NoneRequired fs = ground arith

index-NoneRequired :
    (ops : List DatabaseChangeOperation) (fs : List RiskFactor)
    → NoneRequired (index_recommendations ops fs false)
unfolding index_recommendations when
index-NoneRequired ops fs = ground arith

compatibility-NoneRequired :
    (fs : List RiskFactor) → NoneRequired (compatibility_recommendations fs false)
unfolding compatibility_recommendations when
compatibility-NoneRequired fs = ground arith

replication-NoneRequired :
    (fs : List RiskFactor) (b : Option BlastRadius)
    → NoneRequired (replication_recommendations fs b)
unfolding replication_recommendations when
replication-NoneRequired fs b = ground arith

criticality-NoneRequired :
    (fs : List RiskFactor) (b : Option BlastRadius)
    → NoneRequired (criticality_recommendations fs b false)
unfolding criticality_recommendations when
criticality-NoneRequired fs none = tt
criticality-NoneRequired fs (some br) = ground arith

rollback-NoneRequired : (fs : List RiskFactor) → NoneRequired (rollback_recommendations fs false)
unfolding rollback_recommendations when
rollback-NoneRequired fs = ground arith

size-NoneRequired : (fs : List RiskFactor) → NoneRequired (size_recommendations fs)
unfolding size_recommendations when
size-NoneRequired fs = ground arith

validation-NoneRequired :
    (ops : List DatabaseChangeOperation) → NoneRequired (validation_recommendations ops)
unfolding validation_recommendations when
validation-NoneRequired [] = tt
validation-NoneRequired (_ ∷ _) = (λ h. cc, tt)

-- For a change that does not target production no recommendation is required, whatever the
-- operations, the factors and the blast radius are.
pub required_only_in_production :
    (ops : List DatabaseChangeOperation) (factors : List RiskFactor) (b : Option BlastRadius)
    → All (λ r. r.priority ≢ Priority.required) (generate_recommendations ops factors b false)
unfolding generate_recommendations
required_only_in_production ops factors b = append-NoneRequired _ _ (lock-NoneRequired factors) (
    append-NoneRequired _ _ (index-NoneRequired ops factors) (
      append-NoneRequired _ _ (compatibility-NoneRequired factors) (
        append-NoneRequired _ _ (replication-NoneRequired factors b) (
          append-NoneRequired _ _ (criticality-NoneRequired factors b) (
            append-NoneRequired _ _ (rollback-NoneRequired factors) (
              append-NoneRequired _ _ (size-NoneRequired factors)
                (validation-NoneRequired ops)))))))
