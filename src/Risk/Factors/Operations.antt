-- ===== src/Risk/Factors/Operations.antt =====
-- The factors of risk/factors.py that look at the operations of a change: lock risk, backward
-- compatibility, index impact, query impact, rollback difficulty and complexity.
use db_platform.Base.{
  ℕ, ◌+◌, ◌*◌, String, Bool, Option, none, some, List, [], ◌∷◌, ◌++◌, leb, ltb, any, keep, length,
  is_empty, ◌&&◌, eqb, if◌then◌else◌, map,
}
use db_platform.Base.Dict
use db_platform.Base.Frac.{Frac}
use db_platform.Change.{DatabaseChangeOperation, DatabaseOperation, qualified_table}
use db_platform.Change.Kinds.{
  is_breaking_hard, is_breaking_soft, is_hard_to_roll_back, is_easy_to_roll_back,
  is_index_operation, is_rewrite, is_unknown, distinct,
}
use db_platform.Metadata.{QueryStatistics}
use db_platform.Risk.{
  FactorContext, RiskFactor, RiskFactorType, Evidence, make_factor, target_tables,
}

-- The scores of `_LOCK_RISK_BASE`; `none` where the table has no entry.
unfoldable pub lock_risk_base : DatabaseOperation → Option ℕ
lock_risk_base DatabaseOperation.create_table = some 10
lock_risk_base DatabaseOperation.add_column = some 20
lock_risk_base DatabaseOperation.drop_column = some 35
lock_risk_base DatabaseOperation.alter_column_type = some 85
lock_risk_base DatabaseOperation.rename_column = some 15
lock_risk_base DatabaseOperation.rename_table = some 15
lock_risk_base DatabaseOperation.set_column_not_null = some 55
lock_risk_base DatabaseOperation.drop_column_not_null = some 15
lock_risk_base DatabaseOperation.set_column_default = some 10
lock_risk_base DatabaseOperation.drop_column_default = some 10
lock_risk_base DatabaseOperation.create_index = some 70
lock_risk_base DatabaseOperation.create_index_concurrently = some 20
lock_risk_base DatabaseOperation.drop_index = some 40
lock_risk_base DatabaseOperation.add_constraint = some 60
lock_risk_base DatabaseOperation.add_foreign_key = some 60
lock_risk_base DatabaseOperation.add_primary_key = some 65
lock_risk_base DatabaseOperation.drop_constraint = some 20
lock_risk_base DatabaseOperation.create_view = some 10
lock_risk_base DatabaseOperation.drop_view = some 10
lock_risk_base DatabaseOperation.alter_view = some 10
lock_risk_base DatabaseOperation.create_function = some 5
lock_risk_base DatabaseOperation.drop_function = some 5
lock_risk_base DatabaseOperation.alter_function = some 5
lock_risk_base DatabaseOperation.attach_partition = some 45
lock_risk_base DatabaseOperation.detach_partition = some 45
lock_risk_base DatabaseOperation.unknown = some 50
lock_risk_base DatabaseOperation.alter_table = none
lock_risk_base DatabaseOperation.drop_table = none

-- `_LOCK_RISK_BASE.get(op.operation, _LOCK_RISK_BASE[DatabaseOperation.UNKNOWN])`
unfoldable pub lock_score : DatabaseChangeOperation → ℕ
unfolding lock_risk_base
lock_score op = elim (lock_risk_base op.operation) [ none ↦ 50 | some score ↦ score ]

-- The loop's `worst_score`, where `none` is the -1 that it starts from.
unfoldable pub worst_lock : List DatabaseChangeOperation → Option ℕ → Option ℕ
unfolding lock_score
worst_lock [] worst = worst
worst_lock (op ∷ ops) worst = worst_lock ops (elim worst [
  | none ↦ some (lock_score op)
  | some w ↦ if ltb w (lock_score op) then some (lock_score op) else some w
])

unfoldable pub compute_lock_risk : FactorContext → Frac → RiskFactor
unfolding worst_lock make_factor
compute_lock_risk ctx weight = elim (worst_lock ctx.operations none) [
  | none ↦ make_factor RiskFactorType.lock_risk 0 weight []
  | some worst ↦
      make_factor RiskFactorType.lock_risk worst weight (map Evidence.lock_behaviour ctx.operations)
]

-- `{op.operation for op in ctx.operations}`
unfoldable pub kinds : List DatabaseChangeOperation → List DatabaseOperation
kinds [] = []
kinds (op ∷ ops) = op.operation ∷ kinds ops

unfoldable pub compute_backward_compatibility : FactorContext → Frac → RiskFactor
unfolding kinds make_factor
compute_backward_compatibility ctx weight =
    let ops = kinds ctx.operations in
    if any is_breaking_hard ops
    then make_factor RiskFactorType.backward_compatibility 90 weight
        (map Evidence.breaking (distinct (keep is_breaking_hard ops)))
    else if any is_breaking_soft ops
    then make_factor RiskFactorType.backward_compatibility 55 weight
        (map Evidence.narrowing (distinct (keep is_breaking_soft ops)))
    else make_factor RiskFactorType.backward_compatibility 15 weight []

-- The key by which `max` picks the worst index operation, and `max` itself: the first of the
-- operations with the largest key.
unfoldable pub index_key : DatabaseOperation → ℕ
index_key DatabaseOperation.create_index = 70
index_key DatabaseOperation.drop_index = 35
index_key _ = 20

unfoldable pub worst_index : DatabaseOperation → List DatabaseOperation → DatabaseOperation
unfolding index_key
worst_index best [] = best
worst_index best (op ∷ ops) =
    worst_index (if ltb (index_key best) (index_key op) then op else best) ops

-- `100 << 30`
abbrev pub large_bytes : ℕ
large_bytes = 107374182400

abbrev pub or_zero : Option ℕ → ℕ
or_zero none = 0
or_zero (some n) = n

unfoldable pub index_score : DatabaseOperation → Bool → ℕ
index_score DatabaseOperation.create_index large_table = if large_table then 90 else 70
index_score DatabaseOperation.create_index_concurrently large_table = 20
index_score _ large_table = 40

unfoldable pub compute_index_impact : FactorContext → Frac → RiskFactor
unfolding kinds worst_index index_score make_factor target_tables
compute_index_impact ctx weight = elim (keep is_index_operation (kinds ctx.operations)) [
  | [] ↦ make_factor RiskFactorType.index_impact 5 weight []
  | op ∷ ops ↦
      let large_table =
        any (λ t. leb large_bytes (or_zero t.table_size_bytes)) (target_tables ctx) in
      make_factor RiskFactorType.index_impact (index_score (worst_index op ops) large_table) weight
        []
]

-- The statistics of `op.qualified_table() or ""` show more sequential scans than index scans, and
-- over a thousand of them.
unfoldable pub heavy_scans :
    List (String × QueryStatistics) → DatabaseChangeOperation → List Evidence
unfolding qualified_table
heavy_scans query_stats op =
    let name : String = elim (qualified_table op) [ none ↦ "" | some t ↦ t ] in
    elim (Dict.get name query_stats) [
      | none ↦ []
      | some stats ↦
          let seq = or_zero stats.seq_scans in
          let idx = or_zero stats.index_scans in
          if stats.available && (ltb idx seq && ltb 1000 seq)
          then Evidence.scan_heavy name seq idx ∷ []
          else []
    ]

unfoldable pub all_heavy_scans :
    List (String × QueryStatistics) → List DatabaseChangeOperation → List Evidence
unfolding heavy_scans
all_heavy_scans query_stats [] = []
all_heavy_scans query_stats (op ∷ ops) =
    heavy_scans query_stats op ++ all_heavy_scans query_stats ops

unfoldable pub compute_query_impact : FactorContext → Frac → RiskFactor
unfolding kinds all_heavy_scans make_factor
compute_query_impact ctx weight =
    let base = if any is_rewrite (kinds ctx.operations) then 55 else 15 in
    let evidence = all_heavy_scans ctx.query_stats ctx.operations in
    let score = base + (if is_empty evidence then 0 else 25) in
    make_factor RiskFactorType.query_impact (if ltb 95 score then 95 else score) weight evidence

unfoldable pub compute_rollback_difficulty : FactorContext → Frac → RiskFactor
unfolding kinds make_factor
compute_rollback_difficulty ctx weight =
    let hard =
      keep (λ (op : DatabaseChangeOperation). is_hard_to_roll_back op.operation) ctx.operations in
    let easy = keep is_easy_to_roll_back (kinds ctx.operations) in
    if is_empty hard
    then (if is_empty easy
        then make_factor RiskFactorType.rollback_difficulty 40 weight []
        else if eqb (length easy) (length ctx.operations)
        then make_factor RiskFactorType.rollback_difficulty 15 weight []
        else make_factor RiskFactorType.rollback_difficulty 40 weight [])
    else make_factor RiskFactorType.rollback_difficulty 80 weight
        (map Evidence.hard_to_reverse hard)

unfoldable pub compute_change_complexity : FactorContext → Frac → RiskFactor
unfolding kinds make_factor
compute_change_complexity ctx weight =
    let n = length ctx.operations in
    let has_unknown = any is_unknown (kinds ctx.operations) in
    let distinct_types = length (distinct (kinds ctx.operations)) in
    let score = 10 + 8 * n + 6 * distinct_types + (if has_unknown then 25 else 0) in
    make_factor RiskFactorType.change_complexity (if ltb score 95 then score else 95) weight []
