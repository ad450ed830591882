-- ===== src/RiskPolicy/Shipped/Conditions.antt =====
-- The conditions of the shipped rules on the document of any change and assessment.
use db_platform.Base.{
  ℕ, String, ◌≡◌, refl, Bool, true, false, Option, none, some, List, [], ◌∷◌, leb, ◌==◌, All, inl,
  inr, ◌⊎◌, Bool-cases, ◌&&◌,
}
use db_platform.Base.Value.{put_field, get_field-put_field}
use db_platform.Base.Frac.{whole}
use db_platform.Base.Number.{Number, plus, eq_number}
use db_platform.Base.Result.{ok}
use db_platform.Base.Value.{
  Value, Fields, null, number, str, items, mapping, end, field, nil, cons, get_field,
}
use db_platform.Change.{Change, is_production}
use db_platform.Risk.{RiskLevel, RiskFactor, rank, value_of}
use db_platform.Risk.Engine.{ChangeRiskAssessment}
use db_platform.RiskPolicy.{RiskPolicyRule, Condition}
use db_platform.RiskPolicy.Operators.{
  Matcher, gte, evaluate_operator, operator_named, apply_operator, same_value, same_number,
  as_number, compare_values, order_numbers, is_in, has_item,
}
use db_platform.RiskPolicy.Fields.{resolve_field_path, resolve, step_into, split_dots}
use db_platform.RiskPolicy.Engine.{
  Outcome, act, pass_over, check_condition, all_hold, candidate_of, apply_rule, apply_rules,
}
use db_platform.RiskPolicy.Document.{document_of, factor_fields, label_name, level_name, level_of}
use db_platform.Base.Value.{put_field}
use db_platform.RiskPolicy.Shipped.{
  in_production, high_risk, score_from, low_confidence, shipped_rules,
}

-- What the document has under the name of a factor: nothing, or a mapping with a score.
data Scored (v : Option Value) : Type 0 where
  unscored : v ≡ none → Scored v
  scored :
      (n : ℕ) (rest : Fields)
      → v ≡ some (mapping (field "score" (number (plus (whole n))) rest))
      → Scored v

factor_fields-Scored :
    (fs : List RiskFactor) (d : Fields)
    → ((k : String) → Scored (get_field k d))
    → (k : String) → Scored (get_field k (factor_fields fs d))
unfolding factor_fields
factor_fields-Scored [] d h k = h k
factor_fields-Scored (f ∷ fs) d h k = factor_fields-Scored fs _ next k
  where
    next :
        (j : String)
        → Scored (
            get_field j (
              put_field
                (value_of f.factor_type)
                (mapping (
                  field "score" (number (plus (whole f.score))) (
                    field "label"
                      (str (label_name f.label))
                      (field "weight" (number (plus f.weight)) end))))
                d))
    next j =
        rw (get_field-put_field (value_of f.factor_type) j _ d)
          (elim (Bool-cases (value_of f.factor_type == j)) [
            | inl here ↦ rw here (scored _ _ refl)
            | inr other ↦ rw other (h j)
          ])

module _ (matches : Matcher) (change : Change) (assessment : ChangeRiskAssessment) where
  abbrev pub document : Value
  document = document_of change assessment

  pub Decided : Condition → Type 0
  Decided c = (b : Bool) × (check_condition matches document c ≡ ok b)

  pub in_production-holds :
      check_condition matches document in_production ≡ ok (is_production change)
  unfolding check_condition evaluate_operator operator_named apply_operator resolve_field_path
      resolve step_into split_dots document_of get_field same_value same_number as_number eq_number
  in_production-holds = elim (Bool-cases (is_production change)) [
    | inl e ↦ rw e refl
    | inr e ↦ rw e refl
  ]

  pub high_risk-holds :
      check_condition matches document high_risk ≡ ok (leb 2 (rank assessment.risk_level))
  unfolding check_condition evaluate_operator operator_named apply_operator resolve_field_path
      resolve step_into split_dots document_of get_field is_in has_item same_value level_name rank
  high_risk-holds = go assessment.risk_level
    where
      go :
          (l : RiskLevel)
          → is_in (str (level_name l)) (items (cons (str "high") (cons (str "critical") nil)))
            ≡ ok (leb 2 (rank l))
      go RiskLevel.low = refl
      go RiskLevel.medium = refl
      go RiskLevel.high = refl
      go RiskLevel.critical = refl

  factors_of : (k : String) → Scored (get_field k (factor_fields assessment.factors end))
  unfolding get_field
  factors_of k = factor_fields-Scored assessment.factors end (λ j. unscored refl) k

  score_of :
      (name : String)
      → (resolve document ("factors" ∷ name ∷ "score" ∷ []) ≡ null)
        ⊎ ((n : ℕ) × (resolve document ("factors" ∷ name ∷ "score" ∷ []) ≡ number (plus (whole n))))
  unfolding resolve step_into document_of get_field
  score_of name = elim (factors_of name) [
    | unscored k ↦ inl (rw (k, resolve) refl)
    | scored n rest k ↦ inr (n, rw (k, resolve) refl)
  ]

  gte-number :
      (x y : Number) → (b : Bool) × (apply_operator matches gte (number x) (number y) ≡ ok b)
  unfolding apply_operator compare_values as_number order_numbers
  gte-number x y = (_, refl)

  score_from-Decided :
      (path name : String) (n : ℕ)
      → split_dots path ≡ "factors" ∷ name ∷ "score" ∷ []
      → Decided (score_from path n)
  unfolding Decided check_condition evaluate_operator operator_named resolve_field_path
      apply_operator
  score_from-Decided path name n e = elim (score_of name) [
    | inl k ↦ (false, rw (e, k) refl)
    | inr (m, k) ↦
        let (b, decided) = gte-number (plus (whole m)) (plus (whole n)) in (b, rw (e, k) decided)
  ]

  low_confidence-Decided : Decided low_confidence
  unfolding Decided check_condition evaluate_operator operator_named apply_operator
      resolve_field_path resolve step_into split_dots document_of get_field compare_values as_number
      order_numbers
  low_confidence-Decided = (_, refl)

  pub AllDecided : List Condition → Type 0
  AllDecided cs = All Decided cs

  all_hold-decided :
      (cs : List Condition) → AllDecided cs → (b : Bool) × (all_hold matches document cs ≡ ok b)
  unfolding all_hold AllDecided Decided
  all_hold-decided [] h = (true, refl)
  all_hold-decided (c ∷ cs) ((true, e), h) =
      let (b, k) = all_hold-decided cs h in (b, rw (e, all_hold) k)
  all_hold-decided (c ∷ cs) ((false, e), h) = (false, rw (e, all_hold) refl)

  -- The conditions of a rule evaluate, and its level is one.
  pub Runs : RiskPolicyRule → Type 0
  Runs r = AllDecided r.conditions × ((c : Option RiskLevel) × (candidate_of r ≡ ok c))

  apply_rule-returns :
      (r : RiskPolicyRule) (o : Outcome)
      → Runs r
      → (o' : Outcome) × (apply_rule matches document r o ≡ ok o')
  unfolding apply_rule Runs
  apply_rule-returns r o (h, (c, named)) =
      let (b, e) = all_hold-decided r.conditions h in
      elim (Bool-cases b) [
        | inl on ↦ (act r c o, rw (e, on, named, apply_rule) refl)
        | inr off ↦ (pass_over r o, rw (e, off, apply_rule) refl)
      ]

  pub apply_rules-returns :
      (rules : List RiskPolicyRule) (o : Outcome)
      → All Runs rules
      → (o' : Outcome) × (apply_rules matches document rules o ≡ ok o')
  unfolding apply_rules
  apply_rules-returns [] o h = (o, refl)
  apply_rules-returns (r ∷ rules) o h =
      let (t, e) = apply_rule-returns r o h.0 in
      let (o', k) = apply_rules-returns rules t h.1 in (o', rw (e, apply_rules) k)

  pub all_hold-both :
      (c d : Condition) (x y : Bool)
      → check_condition matches document c ≡ ok x
      → check_condition matches document d ≡ ok y
      → all_hold matches document (c ∷ d ∷ []) ≡ ok (x && y)
  unfolding all_hold
  all_hold-both c d x y e k = elim (Bool-cases x) [
    | inl on ↦ elim (Bool-cases y) [
      | inl both ↦ rw (e, on, all_hold, k, both) refl
      | inr off ↦ rw (e, on, all_hold, k, off) refl
    ]
    | inr off ↦ rw (e, off, all_hold) refl
  ]

  in_production-Decided : Decided in_production
  unfolding Decided
  in_production-Decided = (_, in_production-holds)

  high_risk-Decided : Decided high_risk
  unfolding Decided
  high_risk-Decided = (_, high_risk-holds)

  pub shipped_rules-Runs : All Runs shipped_rules
  unfolding Runs AllDecided shipped_rules candidate_of level_of split_dots
  shipped_rules-Runs = (
    ((in_production-Decided, (high_risk-Decided, tt)), (_, refl)),
    (
      (
        (
          in_production-Decided,
          (
            score_from-Decided "factors.table_size.score" "table_size" 75 refl,
            (
              score_from-Decided "factors.backward_compatibility.score" "backward_compatibility" 55
                  refl,
              tt,
            ),
          ),
        ),
        (_, refl),
      ),
      (
        ((score_from-Decided "factors.index_impact.score" "index_impact" 85 refl, tt), (_, refl)),
        (
          (
            (score_from-Decided "factors.dependency_count.score" "dependency_count" 85 refl, tt),
            (_, refl),
          ),
          (((low_confidence-Decided, tt), (_, refl)), tt),
        ),
      ),
    ),
  )
