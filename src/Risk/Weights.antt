-- ===== src/Risk/Weights.antt =====
-- `RiskWeightsPolicy` of risk/engine.py: the weights of the factors and the thresholds of the risk
-- levels. The weights file is read as typed fields.
pub mod Entries
pub mod Loading
use db_platform.Base.{
  ℕ, ◌+◌, ◌-◌, ◌*◌, String, Bool, true, false, not, Option, none, some, List, [], ◌∷◌, ◌++◌, leb,
  ltb, eqb, any, keep, length, is_empty, ◌&&◌, if◌then◌else◌, ◌==◌,
}
use db_platform.Base.Dict
use db_platform.Base.Frac.{
  Frac, whole, percent, add_frac, mul_frac, round_frac, lt_frac, le_frac, eq_frac,
}
use db_platform.Base.Number.{Number, plus, minus, le_number, lt_number}
use db_platform.Base.Result.{Result, ok, err}
use db_platform.Graph.{Dependency, AffectedResource}
use db_platform.Change.{
  Change, DatabaseChangeOperation, DatabaseOperation, qualified_table, is_production,
}
use db_platform.Change.Kinds.{is_unknown}
use db_platform.BlastRadius.{BlastRadius, sorted_set}
use db_platform.Metadata.{TableMetadata}
use db_platform.Risk.{
  RiskLevel, RiskFactorType, RiskFactor, Evidence, FactorContext, factor_named, all_factor_types,
  contribution,
}
use db_platform.Risk.Factors.{compute_factors}
use db_platform.Risk.Recommendations.{Recommendation, generate_recommendations}

pub data LoadError : Type 0 where
  unknown_factor : String → LoadError
  bad_total : Frac → LoadError

-- An entry of `factors`; a missing weight is 0.0 and a missing `implemented` is true.
pub record FactorSpec : Type 0 where
  pub weight : Option Number
  pub implemented : Option Bool

pub record RawPolicy : Type 0 where
  pub version : Option String
  pub factors : List (String × FactorSpec)
  pub low_max : Option Number
  pub medium_max : Option Number
  pub high_max : Option Number
  pub min_confidence : Option Number

pub record RiskWeightsPolicy : Type 0 where
  pub version : String
  pub weights : List (RiskFactorType × Frac)
  pub unimplemented : List RiskFactorType
  pub low_max : Number
  pub medium_max : Number
  pub high_max : Number
  pub min_confidence_for_no_note : Number

-- A weight that is implemented and positive.
unfoldable pub kept_weight : FactorSpec → Option Frac
kept_weight spec =
    if (elim spec.implemented [ none ↦ true | some b ↦ b ])
    then elim spec.weight [
      | none ↦ none
      | some x ↦ elim x [ plus w ↦ if eqb w.num 0 then none else some w | minus w ↦ none ]
    ]
    else none

pub record Weights : Type 0 where
  pub weights : List (RiskFactorType × Frac)
  pub unimplemented : List RiskFactorType

unfoldable pub add_spec : RiskFactorType → FactorSpec → Weights → Weights
unfolding kept_weight
add_spec t spec ws = elim (kept_weight spec) [
  | none ↦ record ws { unimplemented = ws.unimplemented ++ t ∷ [] }
  | some w ↦ record ws { weights = ws.weights ++ (t, w) ∷ [] }
]

-- The loop of `RiskWeightsPolicy.__init__`; the names of the mapping are distinct.
unfoldable pub read_factors : List (String × FactorSpec) → Weights → Result LoadError Weights
unfolding add_spec factor_named
read_factors [] ws = ok ws
read_factors ((name, spec) ∷ rest) ws = elim (factor_named name all_factor_types) [
  | none ↦ err (unknown_factor name)
  | some t ↦ read_factors rest (add_spec t spec ws)
]

unfoldable pub total_weight : List (RiskFactorType × Frac) → Frac
total_weight [] = whole 0
total_weight ((_, w) ∷ weights) = add_frac w (total_weight weights)

abbrev or_number : Option Number → Number → Number
or_number none d = d
or_number (some x) d = x

-- The attributes that are set, with the defaults of the missing entries.
abbrev pub policy_of : RawPolicy → Weights → RiskWeightsPolicy
policy_of raw ws = record {
  version = elim raw.version [ none ↦ "unknown" | some v ↦ v ];
  weights = ws.weights;
  unimplemented = ws.unimplemented;
  low_max = or_number raw.low_max (plus (whole 24));
  medium_max = or_number raw.medium_max (plus (whole 49));
  high_max = or_number raw.high_max (plus (whole 74));
  min_confidence_for_no_note = or_number raw.min_confidence (plus (percent 85));
}

-- `round(sum(self.weights.values()), 4) != 1.0` is an error.
unfoldable pub check_total : RawPolicy → Weights → Result LoadError RiskWeightsPolicy
unfolding total_weight round_frac
check_total raw ws =
    if eq_frac (round_frac 4 (total_weight ws.weights)) (whole 1)
    then ok (policy_of raw ws)
    else err (bad_total (round_frac 4 (total_weight ws.weights)))

unfoldable pub load_policy : RawPolicy → Result LoadError RiskWeightsPolicy
unfolding read_factors check_total
load_policy raw = elim (read_factors raw.factors (record { weights = []; unimplemented = [] })) [
  | err e ↦ err e
  | ok ws ↦ check_total raw ws
]

unfoldable pub risk_level_for : RiskWeightsPolicy → Frac → RiskLevel
unfolding le_number
risk_level_for policy score =
    if le_number (plus score) policy.low_max
    then RiskLevel.low
    else if le_number (plus score) policy.medium_max
    then RiskLevel.medium
    else if le_number (plus score) policy.high_max
    then RiskLevel.high
    else RiskLevel.critical
