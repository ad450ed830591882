-- ===== src/Examples/Policies.antt =====
-- The shipped rules and the whole pipeline on the example.
use db_platform.Base.{◌≡◌, refl, some, [], ◌∷◌, ◌≤◌, arith, true, false, any, map, is_empty}
use db_platform.Base.Frac.{round_frac, round_half_even}
use db_platform.Base.Result.{ok, err}
use db_platform.Change.{Change, is_production, lower_equals}
use db_platform.Risk.{rank, RiskLevel}
use db_platform.Risk.Engine.{ChangeRiskAssessment, assess}
use db_platform.Risk.Weights.{risk_level_for}
use db_platform.RiskPolicy.{bad_type}
use db_platform.RiskPolicy.Operators.{Matcher}
use db_platform.RiskPolicy.Engine.{Outcome, evaluate, asks_approval}
use db_platform.RiskPolicy.Document.{document_of}
use db_platform.RiskPolicy.Engine.Escalation.{IsRaised, fired, holds, evaluate_only_escalates}
use db_platform.RiskPolicy.Engine.Decisions.{verdict, all_recommended, evaluate_follows_rules}
use db_platform.RiskPolicy.Shipped.{shipped_rules}
use db_platform.RiskPolicy.Shipped.Approval.{shipped_rules-evaluate}
use db_platform.Dependencies.{table_node_id}
use db_platform.Pipeline.{
  ChangeAnalyzer, PipelineDependencies, Assessed, analyzers_for, operations_by, run, governed,
  context_of, assess_operations, blast_radius_of, changed_nodes,
}
use db_platform.Pipeline.Assured.{run_returns, run_never_lowers, run_high_risk_requires_approval}
use db_platform.Base.Number.{le_number}
use db_platform.Risk.{contribution, same_factor, value_of, make_factor}
use db_platform.Risk.Engine.{overall_score, sum_of_contributions}
use db_platform.Risk.Factors.{compute_factors, compute_each, factor_functions, weight_of}
use db_platform.Risk.Factors.Operations.{compute_lock_risk, worst_lock, lock_score, lock_risk_base}
use db_platform.Risk.Factors.Context.{compute_criticality}
use db_platform.Examples.Radius.{twice_radius, analyze_twice}
use db_platform.Examples.{shop}
use db_platform.Examples.Risks.{policy, change, context, build_index}

-- No rule of the example uses a regular expression.
abbrev no_regex : Matcher
no_regex actual expected = err bad_type

abbrev assessment : ChangeRiskAssessment
assessment = record (assess policy "a-1" "now" change context) { risk_level = RiskLevel.high }

abbrev outcome : Outcome
outcome = (shipped_rules-evaluate no_regex change assessment).0

outcome_there : evaluate no_regex shipped_rules change assessment ≡ ok outcome
outcome_there = (shipped_rules-evaluate no_regex change assessment).1

in_production : is_production change ≡ true
unfolding is_production lower_equals
in_production = refl

high_there : 2 ≤ rank RiskLevel.high
unfolding rank
high_there = omega arith

evaluate_only_escalates_example :
    IsRaised
      (fired no_regex (document_of change assessment) shipped_rules)
      RiskLevel.high
      outcome.final_level
evaluate_only_escalates_example =
    evaluate_only_escalates no_regex shipped_rules change assessment outcome outcome_there

evaluate_follows_rules_example :
    (map verdict outcome.decisions
      ≡ map (λ rule. (rule.id, holds no_regex (document_of change assessment) rule)) shipped_rules)
    × (outcome.requires_approval
        ≡ any asks_approval (fired no_regex (document_of change assessment) shipped_rules))
    × (outcome.extra_recommendations
        ≡ all_recommended (fired no_regex (document_of change assessment) shipped_rules))
evaluate_follows_rules_example =
    evaluate_follows_rules no_regex shipped_rules change assessment outcome outcome_there

abbrev parser : ChangeAnalyzer
parser = record { supports = λ c. true; analyze_change = λ c. some build_index }

abbrev deps : PipelineDependencies
deps = record {
  analyzers = parser ∷ [];
  graph = some shop;
  tables = [];
  query_stats = [];
  historical_incidents = [];
  weights = policy;
  rules = shipped_rules;
  matches = no_regex;
}

supported : is_empty (analyzers_for deps.analyzers change) ≡ false
unfolding analyzers_for
supported = refl

parsed : operations_by (analyzers_for deps.analyzers change) change ≡ some build_index
unfolding analyzers_for operations_by
parsed = refl

abbrev ready : Change
ready = record change { operations = build_index }

abbrev measured : ChangeRiskAssessment
measured = assess policy "a-1" "now" ready (context_of deps ready build_index (some twice_radius))

abbrev governed_outcome : Outcome
governed_outcome = (shipped_rules-evaluate no_regex ready measured).0

abbrev assessed : Assessed
assessed = governed measured governed_outcome

evaluated_there : evaluate no_regex shipped_rules ready measured ≡ ok governed_outcome
evaluated_there = (shipped_rules-evaluate no_regex ready measured).1

assessed_there : run deps "a-1" "now" change ≡ ok assessed
unfolding run analyzers_for operations_by assess_operations blast_radius_of changed_nodes
    table_node_id
assessed_there = rw (run, assess_operations, blast_radius_of, analyze_twice, evaluated_there) refl

measured_high : 2 ≤ rank (risk_level_for policy assessed.assessment.overall_score)
unfolding governed assess rank risk_level_for le_number overall_score sum_of_contributions
    contribution round_frac round_half_even compute_factors compute_each factor_functions weight_of
    same_factor value_of compute_lock_risk worst_lock lock_score lock_risk_base compute_criticality
    make_factor context_of
measured_high = omega arith

run_returns_example : (r : Assessed) × (run deps "a-1" "now" change ≡ ok r)
run_returns_example = run_returns deps "a-1" "now" change build_index refl supported parsed

run_never_lowers_example :
    rank (risk_level_for deps.weights assessed.assessment.overall_score)
    ≤ rank assessed.assessment.risk_level
run_never_lowers_example = run_never_lowers deps "a-1" "now" change assessed assessed_there

run_high_risk_requires_approval_example : assessed.assessment.requires_approval ≡ true
run_high_risk_requires_approval_example =
    run_high_risk_requires_approval deps "a-1" "now" change assessed refl in_production
      measured_high assessed_there
