-- ===== src/Risk/Factors/Bounds.antt =====
-- The types, weights, scores and labels of the factors that risk/factors.py computes.
use db_platform.Base.{
  ℕ, ◌≤◌, ◌<◌, ◌≡◌, refl, ap, ◌∙◌, eqb, ltb, Bool-cases, some-injective, Bool, true, false, none,
  some, List, [], ◌∷◌, arith, if◌then◌else◌, Has, All, All-of, inl, inr, Option-cases, List-cases,
  keep,
}
use db_platform.Base.Frac.{Frac}
use db_platform.Risk.{
  FactorContext, RiskFactor, RiskFactorType, Evidence, label_of, make_factor, target_tables,
}
use db_platform.Risk.Factors.Operations.{
  compute_lock_risk, compute_backward_compatibility, compute_index_impact, compute_query_impact,
  compute_rollback_difficulty, compute_change_complexity, worst_lock, kinds,
}
use db_platform.Change.Kinds.{is_index_operation}
use db_platform.Risk.Factors.Context.{
  compute_criticality, compute_dependency_count, compute_production_usage, compute_table_size,
  compute_data_volume, compute_replication_impact, compute_historical_incidents,
}
use db_platform.Risk.Factors.{
  FactorFunction, factor_functions, weight_of, used_weight, compute_each, compute_factors,
}

pub record IsFactor (t : RiskFactorType) (w : Frac) (f : RiskFactor) : Type 0 where
  pub typed : f.factor_type ≡ t
  pub weighted : f.weight ≡ w
  pub bounded : f.score ≤ 100
  pub labelled : f.label ≡ label_of f.score

make_factor-IsFactor :
    (t : RiskFactorType) (score : ℕ) (w : Frac) (evidence : List Evidence)
    → IsFactor t w (make_factor t score w evidence)
unfolding make_factor label_of
make_factor-IsFactor t score w evidence = record {
  typed = refl;
  weighted = refl;
  bounded = ground arith;
  labelled = ground arith;
}

if-IsFactor :
    (t : RiskFactorType) (w : Frac) (b : Bool) (x y : RiskFactor)
    → IsFactor t w x
    → IsFactor t w y
    → IsFactor t w (if b then x else y)
if-IsFactor t w true x y h k = h
if-IsFactor t w false x y h k = k

ruleset factor_rules = (make_factor-IsFactor, if-IsFactor)

-- A function that computes a factor of the type for every context and weight.
abbrev Computes : RiskFactorType → FactorFunction → Type 0
Computes t func = (ctx : FactorContext) (w : Frac) → IsFactor t w (func ctx w)

lock_risk-Computes : Computes RiskFactorType.lock_risk compute_lock_risk
unfolding compute_lock_risk
lock_risk-Computes ctx w = elim (Option-cases (worst_lock ctx.operations none)) [
  | inl e ↦ rw (e, compute_lock_risk) (search factor_rules)
  | inr (s, e) ↦ rw (e, compute_lock_risk) (search factor_rules)
]

backward_compatibility-Computes :
    Computes RiskFactorType.backward_compatibility compute_backward_compatibility
unfolding compute_backward_compatibility
backward_compatibility-Computes ctx w = search factor_rules

query_impact-Computes : Computes RiskFactorType.query_impact compute_query_impact
unfolding compute_query_impact
query_impact-Computes ctx w = search factor_rules

rollback_difficulty-Computes :
    Computes RiskFactorType.rollback_difficulty compute_rollback_difficulty
unfolding compute_rollback_difficulty
rollback_difficulty-Computes ctx w = search factor_rules

change_complexity-Computes : Computes RiskFactorType.change_complexity compute_change_complexity
unfolding compute_change_complexity
change_complexity-Computes ctx w = search factor_rules

index_impact-Computes : Computes RiskFactorType.index_impact compute_index_impact
unfolding compute_index_impact
index_impact-Computes ctx w = elim (List-cases (keep is_index_operation (kinds ctx.operations))) [
  | inl e ↦ rw (e, compute_index_impact) (search factor_rules)
  | inr (x, rest, e) ↦ rw (e, compute_index_impact) (search factor_rules)
]

production_usage-Computes : Computes RiskFactorType.production_usage compute_production_usage
unfolding compute_production_usage
production_usage-Computes ctx w = search factor_rules

historical_incidents-Computes :
    Computes RiskFactorType.historical_incidents compute_historical_incidents
unfolding compute_historical_incidents
historical_incidents-Computes ctx w = search factor_rules

table_size-Computes : Computes RiskFactorType.table_size compute_table_size
unfolding compute_table_size
table_size-Computes ctx w = elim (List-cases (target_tables ctx)) [
  | inl e ↦ rw (e, compute_table_size) (search factor_rules)
  | inr (x, rest, e) ↦ rw (e, compute_table_size) (search factor_rules)
]

data_volume-Computes : Computes RiskFactorType.data_volume compute_data_volume
unfolding compute_data_volume
data_volume-Computes ctx w = elim (List-cases (target_tables ctx)) [
  | inl e ↦ rw (e, compute_data_volume) (search factor_rules)
  | inr (x, rest, e) ↦ rw (e, compute_data_volume) (search factor_rules)
]

criticality-Computes : Computes RiskFactorType.criticality compute_criticality
unfolding compute_criticality
criticality-Computes ctx w = elim (Option-cases ctx.blast_radius) [
  | inl e ↦ simp (e, compute_criticality) (search factor_rules)
  | inr (br, e) ↦ simp (e, compute_criticality) (search factor_rules)
]

dependency_count-Computes : Computes RiskFactorType.dependency_count compute_dependency_count
unfolding compute_dependency_count
dependency_count-Computes ctx w = elim (Option-cases ctx.blast_radius) [
  | inl e ↦ simp (e, compute_dependency_count) (search factor_rules)
  | inr (br, e) ↦ simp (e, compute_dependency_count) (search factor_rules)
]

replication_impact-Computes : Computes RiskFactorType.replication_impact compute_replication_impact
unfolding compute_replication_impact
replication_impact-Computes ctx w = elim (Option-cases ctx.blast_radius) [
  | inl e ↦ simp (e, compute_replication_impact) (search factor_rules)
  | inr (br, e) ↦ simp (e, compute_replication_impact) (search factor_rules)
]

AllCompute : List (RiskFactorType × FactorFunction) → Type 1
AllCompute [] = Unit
AllCompute ((t, func) ∷ funcs) = Computes t func × AllCompute funcs

factor_functions-AllCompute : AllCompute factor_functions
unfolding AllCompute factor_functions
factor_functions-AllCompute = (
  lock_risk-Computes,
  (
    backward_compatibility-Computes,
    (
      criticality-Computes,
      (
        dependency_count-Computes,
        (
          production_usage-Computes,
          (
            table_size-Computes,
            (
              data_volume-Computes,
              (
                index_impact-Computes,
                (
                  query_impact-Computes,
                  (
                    replication_impact-Computes,
                    (
                      rollback_difficulty-Computes,
                      (change_complexity-Computes, (historical_incidents-Computes, tt)),
                    ),
                  ),
                ),
              ),
            ),
          ),
        ),
      ),
    ),
  ),
)

used_weight-weight_of :
    (weights : List (RiskFactorType × Frac)) (t : RiskFactorType) (w : Frac)
    → used_weight weights t ≡ some w
    → (weight_of weights t ≡ some w) × (0 < w.num)
unfolding used_weight
used_weight-weight_of weights t w h = elim (Option-cases (weight_of weights t)) [
  | inl unweighed ↦ cc (rw (unweighed, used_weight) at h)
  | inr (v, weighed) ↦ elim (Bool-cases (eqb v.num 0)) [
    | inl zero_there ↦ cc (rw (weighed, zero_there, used_weight) at h)
    | inr more ↦
        let same : v ≡ w = some-injective v w (rw (weighed, more, used_weight) at h) in
        (weighed ∙ ap some same, rw (← same) (ground arith))
  ]
]

-- A factor of a computed list: it is graded, and carries the weight of its type, which is not 0.
pub record IsWeighed (weights : List (RiskFactorType × Frac)) (f : RiskFactor) : Type 0 where
  pub bounded : f.score ≤ 100
  pub labelled : f.label ≡ label_of f.score
  pub weighed : weight_of weights f.factor_type ≡ some f.weight
  pub positive : 0 < f.weight.num

compute_each-IsWeighed :
    (ctx : FactorContext) (weights : List (RiskFactorType × Frac))
    (funcs : List (RiskFactorType × FactorFunction)) (f : RiskFactor)
    → AllCompute funcs
    → Has f (compute_each ctx weights funcs)
    → IsWeighed weights f
unfolding compute_each AllCompute
compute_each-IsWeighed ctx weights [] f c h = absurd h
compute_each-IsWeighed ctx weights ((t, func) ∷ funcs) f c h =
    elim (Option-cases (used_weight weights t)) [
      | inl unweighed ↦
          compute_each-IsWeighed ctx weights funcs f c.1 (rw (unweighed, compute_each) at h)
      | inr (w, weighed) ↦
          let h' : Has f (func ctx w ∷ compute_each ctx weights funcs) =
            rw (weighed, compute_each) at h in
          let found = used_weight-weight_of weights t w weighed in
          elim h' [
            | inl same ↦
                let i = c.0 ctx w in
                rw same (record {
                  bounded = i.bounded;
                  labelled = i.labelled;
                  weighed = rw (i.typed, i.weighted) found.0;
                  positive = rw i.weighted found.1;
                })
            | inr later ↦ compute_each-IsWeighed ctx weights funcs f c.1 later
          ]
    ]

abbrev pub types_of : List RiskFactor → List RiskFactorType
types_of [] = []
types_of (f ∷ fs) = f.factor_type ∷ types_of fs

abbrev pub implemented_types : List (RiskFactorType × FactorFunction) → List RiskFactorType
implemented_types [] = []
implemented_types ((t, _) ∷ funcs) = t ∷ implemented_types funcs

-- Whether a type has a weight above 0.
abbrev pub is_weighted : List (RiskFactorType × Frac) → RiskFactorType → Bool
is_weighted weights t = elim (weight_of weights t) [ none ↦ false | some w ↦ ltb 0 w.num ]

is_weighted-used_weight :
    (weights : List (RiskFactorType × Frac)) (t : RiskFactorType)
    → is_weighted weights t ≡ (elim (used_weight weights t) [ none ↦ false | some _ ↦ true ])
unfolding used_weight
is_weighted-used_weight weights t = elim (Option-cases (weight_of weights t)) [
  | inl unweighed ↦ rw (unweighed, used_weight, is_weighted) refl
  | inr (w, weighed) ↦ rw (weighed, used_weight, is_weighted) (ground arith)
]

types_of-compute_each :
    (ctx : FactorContext) (weights : List (RiskFactorType × Frac))
    (funcs : List (RiskFactorType × FactorFunction))
    → AllCompute funcs
    → types_of (compute_each ctx weights funcs)
      ≡ keep (is_weighted weights) (implemented_types funcs)
unfolding compute_each AllCompute
types_of-compute_each ctx weights [] c = refl
types_of-compute_each ctx weights ((t, func) ∷ funcs) c =
    let tested = is_weighted-used_weight weights t in
    elim (Option-cases (used_weight weights t)) [
      | inl unweighed ↦ ground (arith, types_of-compute_each ctx weights funcs c.1, tested)
      | inr (w, weighed) ↦ ground (
        arith,
        types_of-compute_each ctx weights funcs c.1,
        tested,
        let i : IsFactor t w (func ctx w) = c.0 ctx w in i.typed,
      )
    ]

-- `compute_factors` returns one factor for each type that has a function and a weight above 0, in
-- the order of the functions; each has a score of 0 to 100, the label of its score and the weight
-- of its type. The weights are not negative.
pub compute_factors_exact :
    (ctx : FactorContext) (weights : List (RiskFactorType × Frac))
    → (types_of (compute_factors ctx weights)
        ≡ keep (is_weighted weights) (implemented_types factor_functions))
      × All (IsWeighed weights) (compute_factors ctx weights)
unfolding compute_factors
compute_factors_exact ctx weights = (
  types_of-compute_each ctx weights factor_functions factor_functions-AllCompute,
  All-of (IsWeighed weights) _
      (λ f h. compute_each-IsWeighed ctx weights factor_functions f factor_functions-AllCompute h),
)
