-- ===== src/Pipeline.antt =====
-- pipeline.py, with the registry of analyzers/base.py: an assessment from a submitted change on.
-- The analyzers are arguments. The explanation, a text for people, is left out.
pub mod Assured
use db_platform.Base.{
  String, Bool, Option, none, some, List, [], ◌∷◌, ◌++◌, keep, is_empty, concat, ◌==◌,
  if◌then◌else◌,
}
use db_platform.Base.Result.{Result, ok, err}
use db_platform.Dependencies.{table_node_id}
use db_platform.Graph.{DependencyGraph}
use db_platform.Change.{Change, DatabaseChangeOperation}
use db_platform.BlastRadius.{BlastRadius, analyze, default_max_hops}
use db_platform.Metadata.{TableMetadata, QueryStatistics}
use db_platform.Risk.{FactorContext}
use db_platform.Risk.Engine.{ChangeRiskAssessment, assess}
use db_platform.Risk.Weights.{RiskWeightsPolicy}
use db_platform.RiskPolicy.{PolicyError, RiskPolicyRule, PolicyDecision}
use db_platform.RiskPolicy.Operators.{Matcher}
use db_platform.RiskPolicy.Engine.{Outcome, evaluate}

-- `none` is the ParseError of a change that cannot be parsed at all.
pub record ChangeAnalyzer : Type 0 where
  pub supports : Change → Bool
  pub analyze_change : Change → Option (List DatabaseChangeOperation)

pub record PipelineDependencies : Type 0 where
  pub analyzers : List ChangeAnalyzer
  pub graph : Option DependencyGraph
  pub tables : List (String × TableMetadata)
  pub query_stats : List (String × QueryStatistics)
  pub historical_incidents : List (String × List String)
  pub weights : RiskWeightsPolicy
  pub rules : List RiskPolicyRule
  pub matches : Matcher

pub data PipelineError : Type 0 where
  unsupported unparsed unfinished : PipelineError
  policy : PolicyError → PipelineError

-- The assessment at the end, with the decisions of the policies.
pub record Assessed : Type 0 where
  pub assessment : ChangeRiskAssessment
  pub policy_decisions : List PolicyDecision

unfoldable pub analyzers_for : List ChangeAnalyzer → Change → List ChangeAnalyzer
analyzers_for analyzers change = keep (λ a. a.supports change) analyzers

unfoldable pub operations_by : List ChangeAnalyzer → Change → Option (List DatabaseChangeOperation)
operations_by [] change = some []
operations_by (a ∷ analyzers) change = elim (a.analyze_change change) [
  | none ↦ none
  | some ops ↦ elim (operations_by analyzers change) [
    | none ↦ none
    | some rest ↦ some (ops ++ rest)
  ]
]

-- `change.target_database or "unknown"`
abbrev pub database_of : Change → String
database_of change = elim change.target_database [
  | none ↦ "unknown"
  | some name ↦ if name == "" then "unknown" else name
]

unfoldable pub changed_nodes : String → List DatabaseChangeOperation → List String
changed_nodes database [] = []
changed_nodes database (op ∷ ops) =
    let rest = changed_nodes database ops in
    elim op.table [
      | none ↦ rest
      | some t ↦ if t == "" then rest else table_node_id database op.schema t ∷ rest
    ]

-- The blast radius, if there is a graph and an operation; the outer `none` stands for an analysis
-- that does not end.
unfoldable pub blast_radius_of :
    Option DependencyGraph → Change → List DatabaseChangeOperation → Option (Option BlastRadius)
unfolding changed_nodes
blast_radius_of none change ops = some none
blast_radius_of (some g) change [] = some none
blast_radius_of (some g) change (op ∷ ops) =
    elim (analyze g default_max_hops (changed_nodes (database_of change) (op ∷ ops))) [
      | none ↦ none
      | some b ↦ some (some b)
    ]

unfoldable pub context_of :
    PipelineDependencies
    → Change
    → List DatabaseChangeOperation
    → Option BlastRadius
    → FactorContext
context_of deps change ops blast_radius = record {
  change = change;
  operations = ops;
  tables = deps.tables;
  blast_radius = blast_radius;
  query_stats = deps.query_stats;
  historical_incidents = deps.historical_incidents;
}

-- The attributes that are set from what the policies return.
unfoldable pub governed : ChangeRiskAssessment → Outcome → Assessed
governed assessment o = record {
  assessment = record assessment {
    risk_level = o.final_level;
    requires_approval = o.requires_approval;
    recommendations = assessment.recommendations ++ o.extra_recommendations;
  };
  policy_decisions = o.decisions;
}

-- From the operations on; `change` has them by then.
unfoldable pub assess_operations :
    PipelineDependencies
    → String
    → String
    → Change
    → List DatabaseChangeOperation
    → Result PipelineError Assessed
unfolding blast_radius_of context_of governed
assess_operations deps id now change ops = elim (blast_radius_of deps.graph change ops) [
  | none ↦ err unfinished
  | some blast_radius ↦
      let assessment =
        assess deps.weights id now change (context_of deps change ops blast_radius) in
      elim (evaluate deps.matches deps.rules change assessment) [
        | err e ↦ err (policy e)
        | ok o ↦ ok (governed assessment o)
      ]
]

unfoldable pub run : PipelineDependencies → String → String → Change → Result PipelineError Assessed
unfolding analyzers_for operations_by assess_operations
run deps id now change =
    if is_empty (analyzers_for deps.analyzers change)
    then err unsupported
    else elim (operations_by (analyzers_for deps.analyzers change) change) [
      | none ↦ err unparsed
      | some ops ↦ assess_operations deps id now (record change { operations = ops }) ops
    ]
