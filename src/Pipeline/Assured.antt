-- ===== src/Pipeline/Assured.antt =====
-- What `run` of pipeline.py ensures, across the blast radius, the assessment and the policies.
use db_platform.Base.{
  ◌≤◌, String, ◌≡◌, refl, sym, true, false, Option, none, some, List, [], ◌∷◌, is_empty,
  Option-cases, Bool-cases, inl, inr,
}
use mathlib.Core.Path.{subst}
use db_platform.Base.Result.{ok, ok-injective, Result-cases}
use db_platform.Graph.{DependencyGraph}
use db_platform.Change.{Change, DatabaseChangeOperation, is_production}
use db_platform.BlastRadius.{BlastRadius, default_max_hops}
use db_platform.BlastRadius.Contents.{analyze_returns}
use db_platform.Risk.{rank}
use db_platform.Risk.Engine.{assess}
use db_platform.Risk.Weights.{risk_level_for}
use db_platform.RiskPolicy.{RiskPolicyRule}
use db_platform.RiskPolicy.Engine.{Outcome, evaluate}
use db_platform.RiskPolicy.Engine.Escalation.{evaluate_only_escalates}
use db_platform.RiskPolicy.Shipped.{shipped_rules}
use db_platform.RiskPolicy.Shipped.Approval.{shipped_rules-evaluate, high_risk_requires_approval}
use db_platform.Pipeline.{
  PipelineDependencies, Assessed, analyzers_for, operations_by, database_of, changed_nodes,
  blast_radius_of, context_of, governed, assess_operations, run,
}

blast_radius_of-returns :
    (graph : Option DependencyGraph) (change : Change) (ops : List DatabaseChangeOperation)
    → (b : Option BlastRadius) × (blast_radius_of graph change ops ≡ some b)
unfolding blast_radius_of
blast_radius_of-returns none change ops = (none, refl)
blast_radius_of-returns (some g) change [] = (none, refl)
blast_radius_of-returns (some g) change (op ∷ ops) =
    let (b, e) =
      analyze_returns g default_max_hops (changed_nodes (database_of change) (op ∷ ops)) in
    (some b, rw (e, blast_radius_of) refl)

-- How `assess_operations` made its result.
record IsMade (deps : PipelineDependencies) (id now : String) (change : Change)
    (ops : List DatabaseChangeOperation) (r : Assessed) : Type 0 where
  radius : Option BlastRadius
  outcome : Outcome
  evaluated :
      evaluate deps.matches deps.rules change
        (assess deps.weights id now change (context_of deps change ops radius))
      ≡ ok outcome
  made :
      governed (assess deps.weights id now change (context_of deps change ops radius)) outcome ≡ r

assess_operations-IsMade :
    (deps : PipelineDependencies) (id now : String) (change : Change)
    (ops : List DatabaseChangeOperation) (r : Assessed)
    → assess_operations deps id now change ops ≡ ok r
    → IsMade deps id now change ops r
unfolding assess_operations
assess_operations-IsMade deps id now change ops r e =
    let (b, k) = blast_radius_of-returns deps.graph change ops in
    let assessment = assess deps.weights id now change (context_of deps change ops b) in
    elim (Result-cases (evaluate deps.matches deps.rules change assessment)) [
      | inr (x, bad) ↦ cc (rw (k, bad, assess_operations) at e)
      | inl (o, good) ↦ record {
        radius = b;
        outcome = o;
        evaluated = good;
        made = ok-injective _ _ (rw (k, good, assess_operations) at e);
      }
    ]

run-IsMade :
    (deps : PipelineDependencies) (id now : String) (change : Change) (r : Assessed)
    → run deps id now change ≡ ok r
    → (ops : List DatabaseChangeOperation) × IsMade deps id now
        (record change { operations = ops })
        ops
        r
unfolding run
run-IsMade deps id now change r e =
    elim (Bool-cases (is_empty (analyzers_for deps.analyzers change))) [
      | inl nobody ↦ cc (rw (nobody, run) at e)
      | inr somebody ↦
          elim (Option-cases (operations_by (analyzers_for deps.analyzers change) change)) [
            | inl unread ↦ cc (rw (somebody, unread, run) at e)
            | inr (ops, read) ↦ (
              ops,
              assess_operations-IsMade deps id now (record change { operations = ops }) ops r
                  (rw (somebody, read, run) at e),
            )
          ]
    ]

-- The assessment that `run` returns never has a lower level than the weights policy gives to its
-- score, whatever the rules and the analyzers are.
pub run_never_lowers :
    (deps : PipelineDependencies) (id now : String) (change : Change) (r : Assessed)
    → run deps id now change ≡ ok r
    → rank (risk_level_for deps.weights r.assessment.overall_score) ≤ rank r.assessment.risk_level
unfolding governed assess
run_never_lowers deps id now change r e =
    let (ops, i) = run-IsMade deps id now change r e in
    let raise =
      evaluate_only_escalates deps.matches deps.rules (record change { operations = ops }) _
        i.outcome i.evaluated in
    subst
      (λ (x : Assessed).
        rank (risk_level_for deps.weights x.assessment.overall_score)
        ≤ rank x.assessment.risk_level)
      i.made raise.from_start

-- With the shipped rules, a change to production whose score is high or critical by the weights
-- policy leaves `run` with a required approval.
pub run_high_risk_requires_approval :
    (deps : PipelineDependencies) (id now : String) (change : Change) (r : Assessed)
    → deps.rules ≡ shipped_rules
    → is_production change ≡ true
    → 2 ≤ rank (risk_level_for deps.weights r.assessment.overall_score)
    → run deps id now change ≡ ok r
    → r.assessment.requires_approval ≡ true
unfolding governed assess is_production
run_high_risk_requires_approval deps id now change r shipped prod high e =
    let (ops, i) = run-IsMade deps id now change r e in
    let change' : Change = record change { operations = ops } in
    let assessment = assess deps.weights id now change' (context_of deps change' ops i.radius) in
    let level =
      subst (λ (x : Assessed). 2 ≤ rank (risk_level_for deps.weights x.assessment.overall_score))
        (sym i.made) high in
    subst (λ (x : Assessed). x.assessment.requires_approval ≡ true) i.made
      (high_risk_requires_approval deps.matches change' assessment i.outcome prod level (
        subst
          (λ (rules : List RiskPolicyRule).
            evaluate deps.matches rules change' assessment ≡ ok i.outcome)
          shipped i.evaluated))

-- With the shipped rules, `run` returns an assessment of each change that an analyzer supports and
-- that its analyzers parse: no later part fails.
pub run_returns :
    (deps : PipelineDependencies) (id now : String) (change : Change)
    (ops : List DatabaseChangeOperation)
    → deps.rules ≡ shipped_rules
    → is_empty (analyzers_for deps.analyzers change) ≡ false
    → operations_by (analyzers_for deps.analyzers change) change ≡ some ops
    → (r : Assessed) × (run deps id now change ≡ ok r)
unfolding run assess_operations
run_returns deps id now change ops shipped somebody read =
    let change' : Change = record change { operations = ops } in
    let (b, k) = blast_radius_of-returns deps.graph change' ops in
    let assessment = assess deps.weights id now change' (context_of deps change' ops b) in
    let (o, good) = shipped_rules-evaluate deps.matches change' assessment in
    (governed assessment o, rw (somebody, read, run, k, assess_operations, shipped, good) refl)
