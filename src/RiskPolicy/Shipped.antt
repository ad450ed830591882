-- ===== src/RiskPolicy/Shipped.antt =====
-- The rules of policies/risk/rules/database-change-policies.yaml, as `load` of policy/engine.py
-- reads them; what they say in descriptions is left out.
pub mod Conditions
pub mod Approval
use db_platform.Base.{String, true, none, some, List, [], ◌∷◌, ℕ}
use db_platform.Base.Frac.{whole, percent}
use db_platform.Base.Number.{plus}
use db_platform.Base.Value.{Value, boolean, number, str, items, nil, cons}
use db_platform.RiskPolicy.{Condition, RawRecommendation, Actions, RiskPolicyRule}

abbrev pub when_field : String → String → Value → Condition
when_field path op v = record { field = some path; operator = some op; value = some v }

abbrev pub in_production : Condition
in_production = when_field "is_production" "equals" (boolean true)

abbrev pub high_risk : Condition
high_risk = when_field "risk_level" "in" (items (cons (str "high") (cons (str "critical") nil)))

abbrev pub score_from : String → ℕ → Condition
score_from path n = when_field path "gte" (number (plus (whole n)))

abbrev pub low_confidence : Condition
low_confidence = when_field "confidence" "lt" (number (plus (percent 60)))

abbrev only_approval : Actions
only_approval = record {
  set_risk_level = none;
  require_approval = some (boolean true);
  recommend = [];
}

abbrev recommending : RawRecommendation → Actions
recommending raw = record { set_risk_level = none; require_approval = none; recommend = raw ∷ [] }

abbrev rule : String → String → List Condition → Actions → RiskPolicyRule
rule id severity conditions actions = record {
  id = id;
  version = "1.0";
  description = "";
  conditions = conditions;
  actions = actions;
  severity = severity;
}

abbrev pub approve_high_risk : RiskPolicyRule
approve_high_risk =
    rule "require-approval-high-risk-production" "error" (in_production ∷ high_risk ∷ [])
      only_approval

abbrev pub escalate_large_table : RiskPolicyRule
escalate_large_table =
    rule "escalate-large-table-breaking-change-production" "error"
      (in_production
        ∷ score_from "factors.table_size.score" 75
        ∷ score_from "factors.backward_compatibility.score" 55
        ∷ [])
      (record {
        set_risk_level = some (str "critical");
        require_approval = some (boolean true);
        recommend = [];
      })

abbrev pub recommend_online_index : RiskPolicyRule
recommend_online_index =
    rule "recommend-online-index-strategy" "warning"
      (score_from "factors.index_impact.score" 85 ∷ [])
      (recommending (record {
        title = some "Use an online index build strategy";
        detail =
            some
              "Policy requires CREATE INDEX CONCURRENTLY (or an equivalent online build strategy) for index builds on tables this large in production.\n";
        priority = some "required";
        category = some "deployment";
      }))

abbrev pub approve_wide_change : RiskPolicyRule
approve_wide_change =
    rule "require-approval-critical-dependency-count" "warning"
      (score_from "factors.dependency_count.score" 85 ∷ []) only_approval

abbrev pub review_low_confidence : RiskPolicyRule
review_low_confidence = rule "low-confidence-manual-review" "warning" (low_confidence ∷ []) (
    recommending (record {
      title = some "Manually review this assessment";
      detail =
          some
            "Confidence in this assessment is low -- treat the score as a starting point, not a conclusion, and have a human review the uncertainty section before deciding.\n";
      priority = some "recommended";
      category = some "review";
    }))

unfoldable pub shipped_rules : List RiskPolicyRule
shipped_rules =
    approve_high_risk ∷ escalate_large_table ∷ recommend_online_index ∷ approve_wide_change
    ∷ review_low_confidence ∷ []
