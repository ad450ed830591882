-- ===== src/Policy/Shipped/Permitted.antt =====
-- What a production request has that passes all thirteen of the shipped rules.
use db_platform.Base.{
  ℕ, String, true, false, some, Option, List, [], ◌∷◌, ◌≡◌, refl, inl, inr, Has, item_at,
  item_at-Has,
}
use db_platform.Base.Result.{ok, Result-cases}
use db_platform.Base.Value.{Value, Fields, str, get_field}
use db_platform.RiskPolicy.Fields.{split_dots}
use db_platform.RiskPolicy.Operators.{Matcher, apply_operator, is_in}
use db_platform.Overrides.{read_field_path, read_parts}
use db_platform.Request.{DatabaseRequest}
use db_platform.Request.Document.{model_dump, metadata_fields}
use db_platform.Policy.{PolicyRule, PolicyResult, Violation}
use db_platform.Policy.Rules.{evaluate_rule_operator, rule_operator_named, apply_rule_operator}
use db_platform.Policy.Engine.{
  applies, severity_of, check_field, check_rule, check_rules, Findings, note, nothing_found,
  evaluate_document,
}
use db_platform.Policy.Verdict.{evaluate_document-IsExact}
use db_platform.Policy.Shipped.{error_rule, shipped_prod_rules, list_value}
use db_platform.Policy.Shipped.Production.{
  Complies, Complies-IsProductionGrade, IsProductionGrade, rule_of,
}
use db_platform.Policy.Shipped.Accepted.{has_item-texts_of, reserved_names}

-- Where the evaluation ends, no rule raised.
checked :
    (matches : Matcher) (document : Fields) (rules : List PolicyRule) (f f' : Findings)
    (rule : PolicyRule)
    → check_rules matches document rules f ≡ ok f'
    → Has rule rules
    → (o : Option Violation) × (check_rule matches document rule ≡ ok o)
unfolding check_rules
checked matches document [] f f' rule e h = absurd h
checked matches document (r ∷ rules) f f' rule e h =
    elim (Result-cases (check_rule matches document r)) [
      | inr (x, bad) ↦ cc (rw (check_rules, bad) at e)
      | inl (o, good) ↦ elim h [
        | inl same ↦ (o, rw same good)
        | inr later ↦
            checked matches document rules (note o f) f' rule (rw (check_rules, good) at e) later
      ]
    ]

module _ (matches : Matcher) (request : DatabaseRequest) (r : PolicyResult)
    (evaluated : evaluate_document matches shipped_prod_rules (model_dump request) ≡ ok r)
    (complies : Complies matches shipped_prod_rules (model_dump request)) where
  findings :
      (f : Findings) × (check_rules matches (model_dump request) shipped_prod_rules nothing_found
        ≡ ok f)
  unfolding evaluate_document
  findings =
      elim (Result-cases
        (check_rules matches (model_dump request) shipped_prod_rules nothing_found)) [
          | inl found ↦ found
          | inr (x, bad) ↦ cc (rw (evaluate_document, bad) at evaluated)
        ]

  -- The operator of a rule without a condition holds.
  operator-holds :
      (n : ℕ) (id field operator : String) (value : Value)
      → item_at n shipped_prod_rules ≡ some (error_rule id field operator value)
      → evaluate_rule_operator matches operator (read_field_path (model_dump request) field) value
        ≡ ok true
  unfolding check_rule check_field applies severity_of
  operator-holds n id field operator value h =
      let actual = read_field_path (model_dump request) field in
      elim (Result-cases (evaluate_rule_operator matches operator actual value)) [
        | inl (true, good) ↦ good
        | inl (false, bad) ↦ absurd (
            rule_of matches shipped_prod_rules (model_dump request) n id field operator value
              complies h bad)
        | inr (x, bad) ↦
            let (f, found) = findings in
            let (o, done) =
              checked matches (model_dump request) shipped_prod_rules nothing_found f
                (error_rule id field operator value) found (item_at-Has n shipped_prod_rules _ h) in
            cc (rw (check_rule, check_field, bad) at done)
      ]

regex-matches :
    (matches : Matcher) (s : String) (pattern : Value)
    → evaluate_rule_operator matches "regex" (str s) pattern ≡ ok true
    → matches (str s) pattern ≡ ok true
unfolding evaluate_rule_operator rule_operator_named apply_rule_operator apply_operator
regex-matches matches s pattern h = elim (Result-cases (matches (str s) pattern)) [
  | inl (true, m) ↦ m
  | inl (false, m) ↦ cc (rw (m, evaluate_rule_operator) at h)
  | inr (x, m) ↦ cc (rw (m, evaluate_rule_operator) at h)
]

not_in-free :
    (matches : Matcher) (s : String) (xs : List String)
    → evaluate_rule_operator matches "not_in" (str s) (list_value xs) ≡ ok true
    → ¬ (Has s xs)
unfolding evaluate_rule_operator rule_operator_named apply_rule_operator apply_operator is_in
not_in-free matches s xs h there =
    cc (rw (has_item-texts_of s xs there, evaluate_rule_operator) at h)

-- What the shipped rules for production ask for: the nine of policies/environments/prod.yaml, which
-- have pgaudit for every classification, and those on the name and the cost center.
pub record IsPermitted (matches : Matcher) (request : DatabaseRequest) : Type 0 where
  pub grade : IsProductionGrade request
  pub free : ¬ (Has request.metadata.name reserved_names)
  pub named : matches (str request.metadata.name) (str "^[a-z][a-z0-9-]{2,49}$") ≡ ok true
  pub costed : matches (str request.metadata.cost_center) (str "^CC-[0-9]{3,6}$") ≡ ok true

pub evaluated-IsPermitted :
    (matches : Matcher) (request : DatabaseRequest) (r : PolicyResult)
    → evaluate_document matches shipped_prod_rules (model_dump request) ≡ ok r
    → r.passed ≡ true
    → IsPermitted matches request
unfolding read_field_path read_parts split_dots model_dump metadata_fields get_field
evaluated-IsPermitted matches request r evaluated accepted =
    let (_, verdict) =
      evaluate_document-IsExact matches shipped_prod_rules (model_dump request) r evaluated in
    let complies = verdict.0 accepted in
    let holds = operator-holds matches request r evaluated complies in
    record {
      grade = Complies-IsProductionGrade matches request complies;
      free =
          not_in-free matches request.metadata.name reserved_names (
            holds 1 "naming-not-reserved" "metadata.name" "not_in" (list_value reserved_names)
              refl);
      named = regex-matches matches request.metadata.name (str "^[a-z][a-z0-9-]{2,49}$") (
          holds 0 "naming-convention-format" "metadata.name" "regex" (str "^[a-z][a-z0-9-]{2,49}$")
            refl);
      costed = regex-matches matches request.metadata.cost_center (str "^CC-[0-9]{3,6}$") (
          holds 2 "tagging-cost-center-format" "metadata.cost_center" "regex"
            (str "^CC-[0-9]{3,6}$") refl);
    }
