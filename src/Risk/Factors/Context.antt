-- ===== src/Risk/Factors/Context.antt =====
-- The factors of risk/factors.py that look at the blast radius, the collected tables and the
-- incidents: criticality, dependency count, production usage, replication impact, table size, data
-- volume and historical incidents.
use db_platform.Base.{
  ℕ, zero, suc, ◌+◌, ◌-◌, ◌*◌, String, not, none, some, List, [], ◌∷◌, ◌++◌, leb, ltb, keep, length,
  is_empty, eqb, if◌then◌else◌, map, concat, ◌==◌,
}
use db_platform.Base.Dict
use db_platform.Base.Frac.{Frac}
use db_platform.Graph.{AffectedResource, is_replication_path}
use db_platform.Change.{DatabaseChangeOperation, is_production}
use db_platform.BlastRadius.{total_affected_count}
use db_platform.Metadata.{TableMetadata, table_name}
use db_platform.Risk.{
  FactorContext, RiskFactor, RiskFactorType, Evidence, make_factor, target_tables,
}
use db_platform.Risk.Factors.Operations.{or_zero}

unfoldable pub compute_criticality : FactorContext → Frac → RiskFactor
unfolding make_factor
compute_criticality ctx weight = elim ctx.blast_radius [
  | none ↦ make_factor RiskFactorType.criticality 10 weight []
  | some br ↦
      if is_empty br.critical_dependencies
      then make_factor RiskFactorType.criticality 10 weight []
      else make_factor RiskFactorType.criticality
          (if leb (length br.critical_dependencies) 2 then 55 else 85) weight
          (map Evidence.critical_dependency br.critical_dependencies)
]

unfoldable pub dependency_score : ℕ → ℕ
dependency_score count =
    if leb count 1 then 10 else if leb count 4 then 35 else if leb count 9 then 60 else 85

unfoldable pub compute_dependency_count : FactorContext → Frac → RiskFactor
unfolding dependency_score make_factor
compute_dependency_count ctx weight = elim ctx.blast_radius [
  | none ↦ make_factor RiskFactorType.dependency_count (dependency_score 0) weight []
  | some br ↦
      make_factor RiskFactorType.dependency_count (dependency_score (total_affected_count br))
        weight (Evidence.scope_estimate br.estimated_scope ∷ [])
]

-- The first ten names, as `[:10]` takes them.
unfoldable pub first_names : ℕ → List AffectedResource → List String
first_names zero rs = []
first_names (suc n) [] = []
first_names (suc n) (r ∷ rs) = r.resource.name ∷ first_names n rs

unfoldable pub compute_production_usage : FactorContext → Frac → RiskFactor
unfolding make_factor is_production first_names
compute_production_usage ctx weight =
    let downstream : List AffectedResource = elim ctx.blast_radius [
      | none ↦ []
      | some br ↦ br.downstream_impact
    ] in
    let prod_downstream = keep (λ r. r.production) downstream in
    if not (is_production ctx.change)
    then make_factor RiskFactorType.production_usage 10 weight []
    else if is_empty prod_downstream
    then make_factor RiskFactorType.production_usage 50 weight []
    else make_factor RiskFactorType.production_usage 85 weight
        (map Evidence.production_resource (first_names 10 prod_downstream))

-- `max(tables, key=...)`: the first of the tables with the largest key.
unfoldable pub largest : (TableMetadata → ℕ) → TableMetadata → List TableMetadata → TableMetadata
largest key best [] = best
largest key best (t ∷ ts) = largest key (if ltb (key best) (key t) then t else best) ts

-- `_BYTE_THRESHOLDS`: 1, 10, 100 and 500 GiB.
unfoldable pub size_score : ℕ → ℕ
size_score size =
    if ltb size 1073741824
    then 10
    else if ltb size 10737418240
    then 30
    else if ltb size 107374182400
    then 55
    else if ltb size 536870912000
    then 75
    else 95

unfoldable pub compute_table_size : FactorContext → Frac → RiskFactor
unfolding target_tables largest size_score table_name make_factor
compute_table_size ctx weight = elim (target_tables ctx) [
  | [] ↦ make_factor RiskFactorType.table_size 20 weight []
  | t ∷ ts ↦
      let biggest = largest (λ x. or_zero x.table_size_bytes) t ts in
      let size = or_zero biggest.table_size_bytes in
      make_factor RiskFactorType.table_size (size_score size) weight
        (Evidence.size_on_disk (table_name biggest) size ∷ [])
]

-- `_ROW_THRESHOLDS`
unfoldable pub volume_score : ℕ → ℕ
volume_score rows =
    if ltb rows 100000
    then 10
    else if ltb rows 1000000
    then 25
    else if ltb rows 10000000
    then 45
    else if ltb rows 50000000
    then 65
    else 85

unfoldable pub compute_data_volume : FactorContext → Frac → RiskFactor
unfolding target_tables largest volume_score table_name make_factor
compute_data_volume ctx weight = elim (target_tables ctx) [
  | [] ↦ make_factor RiskFactorType.data_volume 20 weight []
  | t ∷ ts ↦
      let biggest = largest (λ x. or_zero x.row_estimate) t ts in
      let rows = or_zero biggest.row_estimate in
      make_factor RiskFactorType.data_volume (volume_score rows) weight
        (Evidence.rows (table_name biggest) rows ∷ [])
]

unfoldable pub compute_replication_impact : FactorContext → Frac → RiskFactor
unfolding is_replication_path make_factor
compute_replication_impact ctx weight = elim ctx.blast_radius [
  | none ↦ make_factor RiskFactorType.replication_impact 10 weight []
  | some br ↦
      let targets = keep is_replication_path br.downstream_impact in
      let total = length targets + length br.affected_data_pipelines in
      if eqb total 0
      then make_factor RiskFactorType.replication_impact 10 weight []
      else make_factor RiskFactorType.replication_impact (if eqb total 1 then 45 else 75) weight
          (map (λ (r : AffectedResource). Evidence.replicates r.resource.name) targets)
]

-- The loop of `compute_historical_incidents`; a table that is `None` or empty is passed over.
unfoldable pub incidents_of :
    String → List (String × List String) → List DatabaseChangeOperation → List String
incidents_of target_db history [] = []
incidents_of target_db history (op ∷ ops) =
    let rest = incidents_of target_db history ops in
    elim op.table [
      | none ↦ rest
      | some t ↦
          if t == ""
          then rest
          else elim (Dict.get (concat (target_db ∷ "." ∷ op.schema ∷ "." ∷ t ∷ [])) history) [
            | none ↦ rest
            | some found ↦ found ++ rest
          ]
    ]

-- `ctx.change.target_database or "unknown"`
unfoldable pub target_db : FactorContext → String
target_db ctx = elim ctx.change.target_database [
  | none ↦ "unknown"
  | some name ↦ if name == "" then "unknown" else name
]

unfoldable pub compute_historical_incidents : FactorContext → Frac → RiskFactor
unfolding incidents_of target_db make_factor
compute_historical_incidents ctx weight =
    let found = incidents_of (target_db ctx) ctx.historical_incidents ctx.operations in
    let score = 65 + 10 * (length found - 1) in
    if is_empty found
    then make_factor RiskFactorType.historical_incidents 15 weight []
    else make_factor RiskFactorType.historical_incidents (if ltb score 95 then score else 95) weight
        (map Evidence.incident found)
