-- ===== src/RiskPolicy/Shipped/Approval.antt =====
-- What the shipped rules make of a change and its assessment.
use db_platform.Base.{◌≤◌, ◌≡◌, refl, ◌∙◌, true, arith, leb}
use db_platform.Base.Result.{ok}
use db_platform.Base.Value.{truthy}
use db_platform.Change.{Change, is_production}
use db_platform.Risk.{rank}
use db_platform.Risk.Engine.{ChangeRiskAssessment}
use db_platform.RiskPolicy.Operators.{Matcher}
use db_platform.RiskPolicy.Engine.{Outcome, all_hold, asks_approval, no_outcome, evaluate}
use db_platform.RiskPolicy.Document.{document_of}
use db_platform.RiskPolicy.Engine.Escalation.{holds}
use db_platform.RiskPolicy.Engine.Decisions.{evaluate_follows_rules}
use db_platform.RiskPolicy.Shipped.Conditions.{
  in_production-holds, high_risk-holds, apply_rules-returns, all_hold-both, shipped_rules-Runs,
}
use db_platform.RiskPolicy.Shipped.{in_production, high_risk, shipped_rules, approve_high_risk}

-- The shipped rules evaluate on every change and assessment: none of them raises an error.
pub shipped_rules-evaluate :
    (matches : Matcher) (change : Change) (assessment : ChangeRiskAssessment)
    → (o : Outcome) × (evaluate matches shipped_rules change assessment ≡ ok o)
unfolding evaluate
shipped_rules-evaluate matches change assessment =
    apply_rules-returns matches change assessment shipped_rules (no_outcome assessment.risk_level)
      (shipped_rules-Runs matches change assessment)

-- Under the shipped rules a change to production that is assessed as high or critical requires
-- approval.
pub high_risk_requires_approval :
    (matches : Matcher) (change : Change) (assessment : ChangeRiskAssessment) (o : Outcome)
    → is_production change ≡ true
    → 2 ≤ rank assessment.risk_level
    → evaluate matches shipped_rules change assessment ≡ ok o
    → o.requires_approval ≡ true
unfolding shipped_rules all_hold asks_approval truthy
high_risk_requires_approval matches change assessment o prod high e =
    let (_, approval, _) = evaluate_follows_rules matches shipped_rules change assessment o e in
    let both =
      all_hold-both matches change assessment in_production high_risk (is_production change)
        (leb 2 (rank assessment.risk_level)) (in_production-holds matches change assessment)
        (high_risk-holds matches change assessment) in
    let first : holds matches (document_of change assessment) approve_high_risk ≡ true =
      rw (holds, both, prod) (ground arith) in
    approval ∙ rw first refl
