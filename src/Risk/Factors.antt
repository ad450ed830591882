-- ===== src/Risk/Factors.antt =====
-- `_FACTOR_FUNCS` and `compute_factors` of risk/factors.py.
pub mod Operations
pub mod Context
pub mod Bounds
pub mod Meaning
pub mod Size
use db_platform.Base.{Option, none, some, List, [], ◌∷◌, eqb, if◌then◌else◌}
use db_platform.Base.Frac.{Frac}
use db_platform.Risk.{FactorContext, RiskFactor, RiskFactorType, same_factor}
use db_platform.Risk.Factors.Operations.{
  compute_lock_risk, compute_backward_compatibility, compute_index_impact, compute_query_impact,
  compute_rollback_difficulty, compute_change_complexity,
}
use db_platform.Risk.Factors.Context.{
  compute_criticality, compute_dependency_count, compute_production_usage, compute_table_size,
  compute_data_volume, compute_replication_impact, compute_historical_incidents,
}

abbrev pub FactorFunction : Type 0
FactorFunction = FactorContext → Frac → RiskFactor

unfoldable pub factor_functions : List (RiskFactorType × FactorFunction)
factor_functions =
    (RiskFactorType.lock_risk, compute_lock_risk)
    ∷ (RiskFactorType.backward_compatibility, compute_backward_compatibility)
    ∷ (RiskFactorType.criticality, compute_criticality)
    ∷ (RiskFactorType.dependency_count, compute_dependency_count)
    ∷ (RiskFactorType.production_usage, compute_production_usage)
    ∷ (RiskFactorType.table_size, compute_table_size)
    ∷ (RiskFactorType.data_volume, compute_data_volume)
    ∷ (RiskFactorType.index_impact, compute_index_impact)
    ∷ (RiskFactorType.query_impact, compute_query_impact)
    ∷ (RiskFactorType.replication_impact, compute_replication_impact)
    ∷ (RiskFactorType.rollback_difficulty, compute_rollback_difficulty)
    ∷ (RiskFactorType.change_complexity, compute_change_complexity)
    ∷ (RiskFactorType.historical_incidents, compute_historical_incidents)
    ∷ []

-- `weights.get(factor_type)`
unfoldable pub weight_of : List (RiskFactorType × Frac) → RiskFactorType → Option Frac
unfolding same_factor
weight_of [] t = none
weight_of ((u, w) ∷ weights) t =
    let rest = weight_of weights t in if same_factor u t then some w else rest

-- The weight that the loop uses: none, where it skips a type that has no weight or one of 0. A
-- negative weight, which it skips too, is no fraction here.
unfoldable pub used_weight : List (RiskFactorType × Frac) → RiskFactorType → Option Frac
unfolding weight_of
used_weight weights t = elim (weight_of weights t) [
  | none ↦ none
  | some w ↦ if eqb w.num 0 then none else some w
]

unfoldable pub compute_each :
    FactorContext
    → List (RiskFactorType × Frac)
    → List (RiskFactorType × FactorFunction)
    → List RiskFactor
unfolding used_weight
compute_each ctx weights [] = []
compute_each ctx weights ((t, func) ∷ funcs) =
    let rest = compute_each ctx weights funcs in
    elim (used_weight weights t) [ none ↦ rest | some w ↦ func ctx w ∷ rest ]

unfoldable pub compute_factors : FactorContext → List (RiskFactorType × Frac) → List RiskFactor
unfolding compute_each factor_functions
compute_factors ctx weights = compute_each ctx weights factor_functions
