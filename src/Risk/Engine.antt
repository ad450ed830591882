-- ===== src/Risk/Engine.antt =====
-- `RiskEngine` of risk/engine.py: the assessment of a change. Its id and its time are arguments.
pub mod Score
pub mod Confidence
pub mod Gaps
use db_platform.Base.{
  ℕ, ◌+◌, ◌-◌, ◌*◌, String, Bool, true, false, not, Option, none, some, List, [], ◌∷◌, ◌++◌, leb,
  ltb, eqb, any, keep, length, is_empty, ◌&&◌, if◌then◌else◌, ◌==◌,
}
use db_platform.Base.Dict
use db_platform.Base.Frac.{
  Frac, whole, percent, add_frac, mul_frac, round_frac, lt_frac, le_frac, eq_frac,
}
use db_platform.Base.Number.{Number, plus, minus, le_number, lt_number}
use db_platform.Base.Result.{Result, ok, err}
use db_platform.Graph.{Dependency, AffectedResource}
use db_platform.Change.{
  Change, DatabaseChangeOperation, DatabaseOperation, qualified_table, is_production,
}
use db_platform.Change.Kinds.{is_unknown}
use db_platform.BlastRadius.{BlastRadius, sorted_set}
use db_platform.Metadata.{TableMetadata}
use db_platform.Risk.{
  RiskLevel, RiskFactorType, RiskFactor, Evidence, FactorContext, factor_named, all_factor_types,
  contribution,
}
use db_platform.Risk.Factors.{compute_factors}
use db_platform.Risk.Recommendations.{Recommendation, generate_recommendations}
use db_platform.Risk.Weights.{RiskWeightsPolicy, risk_level_for}

pub data Uncertainty : Type 0 where
  unclassified : ℕ → Uncertainty
  no_metadata : List String → Uncertainty
  graph_confidence : Frac → Uncertainty
  no_graph : Uncertainty
  not_assessed : RiskFactorType → Uncertainty

-- `1 - 0.15 * n`, and 0.4 where that is less
unfoldable pub unknown_penalty : ℕ → Frac
unknown_penalty n = percent (if ltb (100 - 15 * n) 40 then 40 else 100 - 15 * n)

unfoldable pub missing_tables :
    List (String × TableMetadata) → List DatabaseChangeOperation → List String
unfolding qualified_table
missing_tables tables [] = []
missing_tables tables (op ∷ ops) =
    let rest = missing_tables tables ops in
    elim (qualified_table op) [
      | none ↦ rest
      | some name ↦ if Dict.has name tables then rest else name ∷ rest
    ]

pub record Doubt : Type 0 where
  pub confidence : Frac
  pub uncertainty : List Uncertainty

-- The four blocks of `_confidence_and_uncertainty`, each from what the one before it left.
unfoldable pub doubt_operations : List DatabaseChangeOperation → Doubt → Doubt
unfolding unknown_penalty
doubt_operations ops d =
    let unknown_ops =
      length (keep (λ (op : DatabaseChangeOperation). is_unknown op.operation) ops) in
    if eqb unknown_ops 0 then d else record {
      confidence = mul_frac d.confidence (unknown_penalty unknown_ops);
      uncertainty = d.uncertainty ++ unclassified unknown_ops ∷ [];
    }

unfoldable pub doubt_tables : List String → Doubt → Doubt
unfolding sorted_set
doubt_tables missing d = if is_empty missing then d else record {
  confidence = mul_frac d.confidence (percent 85);
  uncertainty = d.uncertainty ++ no_metadata (sorted_set missing) ∷ [];
}

unfoldable pub doubt_graph : Option BlastRadius → Number → Doubt → Doubt
unfolding lt_number
doubt_graph blast_radius min_confidence d = elim blast_radius [
  | none ↦ record {
    confidence = mul_frac d.confidence (percent 50);
    uncertainty = d.uncertainty ++ no_graph ∷ [];
  }
  | some br ↦ record {
    confidence = mul_frac d.confidence br.confidence;
    uncertainty =
        d.uncertainty
        ++ (if lt_number (plus br.confidence) min_confidence
            then graph_confidence br.confidence ∷ []
            else []);
  }
]

unfoldable pub doubt_factors : List RiskFactorType → Doubt → Doubt
doubt_factors [] d = d
doubt_factors (t ∷ ts) d =
    doubt_factors ts (record d { uncertainty = d.uncertainty ++ not_assessed t ∷ [] })

unfoldable pub confidence_and_uncertainty : RiskWeightsPolicy → FactorContext → Doubt
unfolding doubt_operations doubt_tables doubt_graph doubt_factors missing_tables round_frac
confidence_and_uncertainty policy context =
    let d = doubt_factors policy.unimplemented (
      doubt_graph context.blast_radius policy.min_confidence_for_no_note (
        doubt_tables (missing_tables context.tables context.operations) (
          doubt_operations context.operations
            (record { confidence = whole 1; uncertainty = [] })))) in
    record {
      confidence = round_frac 4 (if le_frac (whole 1) d.confidence then whole 1 else d.confidence);
      uncertainty = d.uncertainty;
    }

unfoldable pub sum_of_contributions : List RiskFactor → Frac
unfolding contribution
sum_of_contributions [] = whole 0
sum_of_contributions (f ∷ fs) = add_frac (contribution f) (sum_of_contributions fs)

unfoldable pub overall_score : List RiskFactor → Frac
unfolding sum_of_contributions round_frac
overall_score factors = round_frac 2 (sum_of_contributions factors)

-- `sorted(factors, key=lambda f: f.contribution, reverse=True)`: equal keys keep their order.
unfoldable pub insert_factor : RiskFactor → List RiskFactor → List RiskFactor
unfolding contribution
insert_factor f [] = f ∷ []
insert_factor f (x ∷ xs) =
    let later = x ∷ insert_factor f xs in
    if lt_frac (contribution f) (contribution x) then later else f ∷ x ∷ xs

unfoldable pub by_contribution : List RiskFactor → List RiskFactor
unfolding insert_factor
by_contribution [] = []
by_contribution (f ∷ fs) = insert_factor f (by_contribution fs)

abbrev first_two : List Evidence → List Evidence
first_two [] = []
first_two (a ∷ []) = a ∷ []
first_two (a ∷ b ∷ _) = a ∷ b ∷ []

unfoldable pub top_evidence : List RiskFactor → List Evidence
unfolding by_contribution
top_evidence factors = elim (by_contribution factors) [
  | [] ↦ []
  | a ∷ as_rest ↦ elim as_rest [
    | [] ↦ first_two a.evidence
    | b ∷ bs ↦ elim bs [
      | [] ↦ first_two a.evidence ++ first_two b.evidence
      | c ∷ _ ↦ first_two a.evidence ++ first_two b.evidence ++ first_two c.evidence
    ]
  ]
]

unfoldable pub paths_of : List AffectedResource → List Dependency
paths_of [] = []
paths_of (r ∷ rs) = r.via ++ paths_of rs

pub record ChangeRiskAssessment : Type 0 where
  pub change_id : String
  pub overall_score : Frac
  pub risk_level : RiskLevel
  pub confidence : Frac
  pub factors : List RiskFactor
  pub evidence : List Evidence
  pub affected_resources : List AffectedResource
  pub dependencies : List Dependency
  pub blast_radius : Option BlastRadius
  pub recommendations : List Recommendation
  pub uncertainty : List Uncertainty
  pub id : String
  pub assessed_at : String
  pub policy_version : String
  pub requires_approval : Bool

unfoldable pub assess :
    RiskWeightsPolicy → String → String → Change → FactorContext → ChangeRiskAssessment
unfolding overall_score risk_level_for confidence_and_uncertainty top_evidence paths_of
assess policy id now change context =
    let factors = compute_factors context policy.weights in
    let score = overall_score factors in
    let doubt = confidence_and_uncertainty policy context in
    let direct : List AffectedResource = elim context.blast_radius [
      | none ↦ []
      | some br ↦ br.direct_impact
    ] in
    let downstream : List AffectedResource = elim context.blast_radius [
      | none ↦ []
      | some br ↦ br.downstream_impact
    ] in
    record {
      change_id = change.id;
      overall_score = score;
      risk_level = risk_level_for policy score;
      confidence = doubt.confidence;
      factors = factors;
      evidence = top_evidence factors;
      affected_resources = direct ++ downstream;
      dependencies = paths_of downstream;
      blast_radius = context.blast_radius;
      recommendations =
          generate_recommendations context.operations factors context.blast_radius
            (is_production change);
      uncertainty = doubt.uncertainty;
      id = id;
      assessed_at = now;
      policy_version = policy.version;
      requires_approval = false;
    }
