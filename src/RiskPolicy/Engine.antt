-- ===== src/RiskPolicy/Engine.antt =====
-- `RiskPolicyEngine.evaluate` of policy/engine.py, on the rules that `load` read. What a rule
-- reads, the document, is fixed before the first rule runs.
pub mod Escalation
pub mod Decisions
use db_platform.Base.{
  ℕ, String, Bool, true, false, ◌||◌, Option, none, some, List, [], ◌∷◌, ◌++◌, ◌==◌, if◌then◌else◌,
}
use db_platform.Base.Frac.{whole}
use db_platform.Base.Number.{plus}
use db_platform.Base.Result.{Result, ok, err}
use db_platform.Base.Value.{
  Value, Items, Fields, null, boolean, number, str, items, mapping, nil, cons, end, field, truthy,
}
use db_platform.Change.{Change, DatabaseChangeOperation, DatabaseOperation, is_production}
use db_platform.Risk.{RiskLevel, RiskFactor, Label, value_of, above}
use db_platform.Risk.Recommendations.{Recommendation, Priority}
use db_platform.Risk.Engine.{ChangeRiskAssessment}
use db_platform.RiskPolicy.{
  PolicyError, missing_key, bad_level, Condition, RawRecommendation, Actions, RiskPolicyRule,
  Applied, PolicyDecision,
}
use db_platform.RiskPolicy.Operators.{Matcher, evaluate_operator}
use db_platform.RiskPolicy.Fields.{resolve_field_path}
use db_platform.RiskPolicy.Document.{level_of, document_of}

unfoldable pub check_condition : Matcher → Value → Condition → Result PolicyError Bool
unfolding evaluate_operator resolve_field_path
check_condition matches document condition = elim condition.operator [
  | none ↦ err (missing_key "operator")
  | some op ↦ elim condition.field [
    | none ↦ err (missing_key "field")
    | some path ↦
        evaluate_operator matches op (resolve_field_path document path)
          (elim condition.value [ none ↦ null | some v ↦ v ])
  ]
]

-- `all(...)`, which stops at the first condition that does not hold
unfoldable pub all_hold : Matcher → Value → List Condition → Result PolicyError Bool
unfolding check_condition
all_hold matches document [] = ok true
all_hold matches document (c ∷ cs) = elim (check_condition matches document c) [
  | err e ↦ err e
  | ok b ↦ elim b [ true ↦ all_hold matches document cs | false ↦ ok false ]
]

unfoldable pub priority_of : Option String → Option Priority
priority_of none = some Priority.recommended
priority_of (some s) =
    if s == "required"
    then some Priority.required
    else if s == "recommended"
    then some Priority.recommended
    else if s == "optional"
    then some Priority.optional
    else none

-- `none` where a KeyError or a ValueError is suppressed
unfoldable pub recommendation_of : RawRecommendation → Option Recommendation
unfolding priority_of
recommendation_of raw = elim raw.title [
  | none ↦ none
  | some title ↦ elim raw.detail [
    | none ↦ none
    | some detail ↦ elim (priority_of raw.priority) [
      | none ↦ none
      | some priority ↦ some (record {
        title = title;
        detail = detail ∷ [];
        priority = priority;
        category = elim raw.category [ none ↦ "review" | some c ↦ c ];
        related_factor = none;
      })
    ]
  ]
]

unfoldable pub recommendations_of : List RawRecommendation → List Recommendation
unfolding recommendation_of
recommendations_of [] = []
recommendations_of (raw ∷ raws) =
    let rest = recommendations_of raws in
    elim (recommendation_of raw) [ none ↦ rest | some rec ↦ rec ∷ rest ]

abbrev titles_of : List Recommendation → List String
titles_of [] = []
titles_of (rec ∷ recs) = rec.title ∷ titles_of recs

unfoldable pub asks_approval : RiskPolicyRule → Bool
unfolding truthy
asks_approval rule = elim rule.actions.require_approval [ none ↦ false | some v ↦ truthy v ]

-- The level that `set_risk_level` names, if the rule has one.
unfoldable pub candidate_of : RiskPolicyRule → Result PolicyError (Option RiskLevel)
unfolding level_of
candidate_of rule = elim rule.actions.set_risk_level [
  | none ↦ ok none
  | some v ↦ elim (level_of v) [ none ↦ err (bad_level v) | some level ↦ ok (some level) ]
]

-- The level after a rule that names a candidate, and what is noted as applied: policy only ever
-- escalates.
unfoldable pub raised : Option RiskLevel → RiskLevel → RiskLevel
unfolding above
raised none level = level
raised (some candidate) level = if above candidate level then candidate else level

unfoldable pub noted : Option RiskLevel → RiskLevel → Option RiskLevel
unfolding above
noted none level = none
noted (some candidate) level = if above candidate level then some candidate else none

-- The variables that the loop over the rules writes, which `evaluate` returns.
pub record Outcome : Type 0 where
  pub decisions : List PolicyDecision
  pub final_level : RiskLevel
  pub requires_approval : Bool
  pub extra_recommendations : List Recommendation

abbrev pub decide : RiskPolicyRule → Bool → Applied → PolicyDecision
decide rule triggered applied = record {
  policy_id = rule.id;
  version = rule.version;
  description = rule.description;
  triggered = triggered;
  severity = rule.severity;
  actions_applied = applied;
}

-- The round of a rule that is not triggered, and of one that is.
unfoldable pub pass_over : RiskPolicyRule → Outcome → Outcome
pass_over rule o = record o {
  decisions =
      o.decisions
      ++ decide rule false
          (record { set_risk_level = none; require_approval = false; recommend = [] })
        ∷ [];
}

unfoldable pub act : RiskPolicyRule → Option RiskLevel → Outcome → Outcome
unfolding raised noted asks_approval recommendations_of
act rule candidate o = record {
  decisions =
      o.decisions
      ++ decide rule true (record {
        set_risk_level = noted candidate o.final_level;
        require_approval = asks_approval rule;
        recommend = titles_of (recommendations_of rule.actions.recommend);
      })
        ∷ [];
  final_level = raised candidate o.final_level;
  requires_approval = if asks_approval rule then true else o.requires_approval;
  extra_recommendations = o.extra_recommendations ++ recommendations_of rule.actions.recommend;
}

unfoldable pub apply_rule : Matcher → Value → RiskPolicyRule → Outcome → Result PolicyError Outcome
unfolding all_hold candidate_of act pass_over
apply_rule matches document rule o = elim (all_hold matches document rule.conditions) [
  | err e ↦ err e
  | ok triggered ↦ elim triggered [
    | false ↦ ok (pass_over rule o)
    | true ↦ elim (candidate_of rule) [ err e ↦ err e | ok candidate ↦ ok (act rule candidate o) ]
  ]
]

unfoldable pub apply_rules :
    Matcher → Value → List RiskPolicyRule → Outcome → Result PolicyError Outcome
unfolding apply_rule
apply_rules matches document [] o = ok o
apply_rules matches document (rule ∷ rules) o = elim (apply_rule matches document rule o) [
  | err e ↦ err e
  | ok o' ↦ apply_rules matches document rules o'
]

abbrev pub no_outcome : RiskLevel → Outcome
no_outcome level = record {
  decisions = [];
  final_level = level;
  requires_approval = false;
  extra_recommendations = [];
}

unfoldable pub evaluate :
    Matcher → List RiskPolicyRule → Change → ChangeRiskAssessment → Result PolicyError Outcome
unfolding apply_rules document_of
evaluate matches rules change assessment =
    apply_rules matches (document_of change assessment) rules (no_outcome assessment.risk_level)
