-- ===== src/RiskPolicy/Engine/Decisions.antt =====
-- The decisions, the approval and the recommendations that `evaluate` of policy/engine.py returns.
use mathlib.Core.List.{append-nil, append_assoc}
use db_platform.Base.{String, ◌≡◌, refl, sym, ap, Bool, ◌||◌, List, [], ◌∷◌, ◌++◌, arith, any, map}
use db_platform.Base.Result.{ok, ok-injective}
use db_platform.Base.Value.{Value}
use db_platform.Change.{Change}
use db_platform.Risk.Engine.{ChangeRiskAssessment}
use db_platform.Risk.Recommendations.{Recommendation}
use db_platform.RiskPolicy.{RiskPolicyRule, PolicyDecision}
use db_platform.RiskPolicy.Operators.{Matcher}
use db_platform.RiskPolicy.Engine.{
  Outcome, asks_approval, recommendations_of, pass_over, act, apply_rules, no_outcome, evaluate,
}
use db_platform.RiskPolicy.Document.{document_of}
use db_platform.RiskPolicy.Engine.Escalation.{holds, fired, passed, acted, apply_rules-step}

-- Of a decision, its rule and whether that was triggered.
abbrev pub verdict : PolicyDecision → String × Bool
verdict d = (d.policy_id, d.triggered)

-- What the rules that act recommend, in their order.
abbrev pub all_recommended : List RiskPolicyRule → List Recommendation
all_recommended [] = []
all_recommended (rule ∷ rules) = recommendations_of rule.actions.recommend ++ all_recommended rules

map-append :
    {A : Type 0} {B : Type 0} (f : A → B) (xs ys : List A) → map f (xs ++ ys) ≡ map f xs ++ map f ys
map-append f [] ys = refl
map-append f (x ∷ xs) ys = ap (λ l. f x ∷ l) (map-append f xs ys)

module _ (matches : Matcher) (document : Value) where
  verdicts : List RiskPolicyRule → List (String × Bool)
  verdicts rules = map (λ (rule : RiskPolicyRule). (rule.id, holds matches document rule)) rules

  record IsFollowed (rules : List RiskPolicyRule) (o o' : Outcome) : Type 0 where
    decided : map verdict o'.decisions ≡ map verdict o.decisions ++ verdicts rules
    approved :
        o'.requires_approval
        ≡ (o.requires_approval || any asks_approval (fired matches document rules))
    recommended :
        o'.extra_recommendations
        ≡ o.extra_recommendations ++ all_recommended (fired matches document rules)

  apply_rules-IsFollowed :
      (rules : List RiskPolicyRule) (o o' : Outcome)
      → apply_rules matches document rules o ≡ ok o'
      → IsFollowed rules o o'
  unfolding apply_rules pass_over act verdicts
  apply_rules-IsFollowed [] o o' e =
      let same = ok-injective o o' e in
      rw (← same) (record {
        decided = sym (append-nil _);
        approved = ground arith;
        recommended = sym (append-nil _);
      })
  apply_rules-IsFollowed (rule ∷ rules) o o' e =
      let (t, st, rest) = apply_rules-step matches document rule rules o o' e in
      let later = apply_rules-IsFollowed rules t o' rest in
      elim st [
        | passed off is ↦
            let decided = rw (is, map-append, append_assoc) at later.decided in
            record {
              decided = rw off decided;
              approved = rw off (rw is at later.approved);
              recommended = rw off (rw is at later.recommended);
            }
        | acted c on named is ↦
            let decided = rw (is, map-append, append_assoc) at later.decided in
            let approved = rw is at later.approved in
            record {
              decided = rw on decided;
              approved = rw on (ground arith);
              recommended = rw on (rw (is, append_assoc) at later.recommended);
            }
      ]

-- An evaluation that returns has one decision for each rule, in the order of the rules, which says
-- whether the conditions of the rule hold. It requires approval exactly where one of the rules whose
-- conditions hold asks for it, and it adds what these rules recommend, in their order.
pub evaluate_follows_rules :
    (matches : Matcher) (rules : List RiskPolicyRule) (change : Change)
    (assessment : ChangeRiskAssessment) (o : Outcome)
    → evaluate matches rules change assessment ≡ ok o
    → (map verdict o.decisions
        ≡ map
            (λ (rule : RiskPolicyRule).
              (rule.id, holds matches (document_of change assessment) rule))
            rules)
      × (o.requires_approval
          ≡ any asks_approval (fired matches (document_of change assessment) rules))
      × (o.extra_recommendations
          ≡ all_recommended (fired matches (document_of change assessment) rules))
unfolding evaluate verdicts
evaluate_follows_rules matches rules change assessment o e =
    let i =
      apply_rules-IsFollowed matches (document_of change assessment) rules
        (no_outcome assessment.risk_level) o e in
    (i.decided, i.approved, i.recommended)
