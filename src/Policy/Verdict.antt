-- ===== src/Policy/Verdict.antt =====
-- What `evaluate` of policy/engine.py finds, against a description of a violation that does not
-- mention its loop.
use mathlib.Core.Path.{subst}
use db_platform.Base.{
  left_empty, some-injective, String, true, false, Option, none, some, List, [], ◌∷◌, ◌≡◌, refl, ap,
  sym, ◌∙◌, Any, ◌↔◌, ◌⊎◌, inl, inr, Has, Has-append, arith, is_empty_iff, Option-cases,
}
use db_platform.Base.Result.{ok, ok-injective, Result-cases}
use db_platform.Base.Value.{Fields}
use db_platform.RiskPolicy.Operators.{Matcher}
use db_platform.Overrides.{read_field_path}
use db_platform.Policy.{Severity, error, warning, PolicyRule, Violation, PolicyResult}
use db_platform.Policy.Rules.{evaluate_rule_operator}
use db_platform.Policy.Engine.{
  value_or_null, applies, severity_of, check_field, check_rule, Findings, note, check_rules,
  nothing_found, evaluate_document,
}

-- A rule that applies to the document, and whose operator does not hold of its field.
pub record IsViolation (matches : Matcher) (document : Fields) (rule : PolicyRule) (v : Violation)
    : Type 0 where
  pub operator : String
  pub named : v.rule_id ≡ elim rule.id [ none ↦ "<unnamed-rule>" | some id ↦ id ]
  pub applied : applies matches document rule ≡ ok true
  pub field_is : rule.field ≡ some v.field
  pub operator_is : rule.operator ≡ some operator
  pub severity_is : severity_of rule.severity ≡ ok v.severity
  pub expected_is : v.expected ≡ value_or_null rule.value
  pub actual_is : v.actual ≡ read_field_path document v.field
  pub unsatisfied : evaluate_rule_operator matches operator v.actual v.expected ≡ ok false

module _ (matches : Matcher) (document : Fields) (rule : PolicyRule) where
  check_field-IsViolation :
      (v : Violation)
      → applies matches document rule ≡ ok true
      → check_field matches document rule ≡ ok (some v)
      → IsViolation matches document rule v
  unfolding check_field
  check_field-IsViolation v h e = elim (Option-cases rule.field) [
    | inl f ↦ cc (rw f at e)
    | inr (path, f) ↦ elim (Option-cases rule.operator) [
      | inl o ↦ cc (rw (f, o) at e)
      | inr (op, o) ↦ elim (Result-cases (severity_of rule.severity)) [
        | inr (x, s) ↦ cc (rw (f, o, s) at e)
        | inl (severity, s) ↦
            elim (Result-cases (
              evaluate_rule_operator matches op (read_field_path document path)
                (value_or_null rule.value))) [
                  | inr (x, r) ↦ cc (rw (f, o, s, r) at e)
                  | inl (true, r) ↦ cc (rw (f, o, s, r) at e)
                  | inl (false, r) ↦
                      subst (λ x. IsViolation matches document rule x)
                        (some-injective _ _ (ok-injective _ _ (rw (f, o, s, r) at e)))
                        (record {
                          operator = op;
                          named = refl;
                          applied = h;
                          field_is = f;
                          operator_is = o;
                          severity_is = s;
                          expected_is = refl;
                          actual_is = refl;
                          unsatisfied = r;
                        })
                ]
      ]
    ]
  ]

  remade :
      (v : Violation)
      → v.rule_id ≡ elim rule.id [ none ↦ "<unnamed-rule>" | some id ↦ id ]
      → v.expected ≡ value_or_null rule.value
      → v.actual ≡ read_field_path document v.field
      → ◌≡◌ {A = Violation}
          (record v {
            rule_id = elim rule.id [ none ↦ "<unnamed-rule>" | some id ↦ id ];
            expected = value_or_null rule.value;
            actual = read_field_path document v.field;
          })
          v
  remade v n x a = rw (← n, ← x, ← a) refl

  -- A rule is noted as a violation exactly where it is one.
  pub check_rule_iff :
      (v : Violation)
      → (check_rule matches document rule ≡ ok (some v)) ↔ IsViolation matches document rule v
  unfolding check_rule check_field
  check_rule_iff v = (
    λ e. elim (Result-cases (applies matches document rule)) [
      | inr (x, a) ↦ cc (rw (check_rule, a) at e)
      | inl (false, a) ↦ cc (rw (check_rule, a) at e)
      | inl (true, a) ↦ check_field-IsViolation v a (rw (check_rule, a) at e)
    ],
    λ i.
        let shape = remade v i.named i.expected_is i.actual_is in
        let stays = rw (i.actual_is, i.expected_is) at i.unsatisfied in
        rw (check_rule, i.applied, check_field, i.field_is, i.operator_is, i.severity_is, stays)
          (ap (λ x. ok (some x)) shape),
  )

-- The list that a violation of a severity goes to.
abbrev list_of : Severity → Findings → List Violation
list_of error f = f.violations
list_of warning f = f.warnings

pub Severity-cases : (s : Severity) → (s ≡ error) ⊎ (s ≡ warning)
Severity-cases error = inl refl
Severity-cases warning = inr refl

Has-note :
    (s : Severity) (v : Violation) (o : Option Violation) (f : Findings)
    → Has v (list_of s (note o f)) ↔ (Has v (list_of s f) ⊎ ((o ≡ some v) × (v.severity ≡ s)))
unfolding note
Has-note s v none f = ground arith
Has-note error v (some w) f =
    ground
      (arith, Severity-cases w.severity, Has-append v f.violations (w ∷ []), some-injective w v)
Has-note warning v (some w) f =
    ground (arith, Severity-cases w.severity, Has-append v f.warnings (w ∷ []), some-injective w v)

one_more :
    (s : Severity) (matches : Matcher) (document : Fields) (rule : PolicyRule)
    (rules : List PolicyRule) (f : Findings) (o : Option Violation) (v : Violation) {R : Type 0}
    → check_rule matches document rule ≡ ok o
    → R ↔ (
        Has v (list_of s (note o f))
        ⊎ ((v.severity ≡ s) × Any (λ r. IsViolation matches document r v) rules))
    → R ↔ (
        Has v (list_of s f)
        ⊎ ((v.severity ≡ s) × Any (λ r. IsViolation matches document r v) (rule ∷ rules)))
one_more s matches document rule rules f o v good rest =
    let (noted, kept) = Has-note s v o f in
    let one = check_rule_iff matches document rule v in
    (
      λ x. elim (rest.0 x) [
        | inl h ↦ elim (noted h) [
          | inl old ↦ inl old
          | inr (new, is_s) ↦ inr (is_s, inl (one.0 (good ∙ ap ok new)))
        ]
        | inr (is_s, later) ↦ inr (is_s, inr later)
      ],
      λ x. elim x [
        | inl old ↦ rest.1 (inl (kept (inl old)))
        | inr (is_s, inl now) ↦
            rest.1 (inl (kept (inr (ok-injective _ _ (sym good ∙ one.1 now), is_s))))
        | inr (is_s, inr later) ↦ rest.1 (inr (is_s, later))
      ],
    )

check_rules_exact :
    (s : Severity) (matches : Matcher) (document : Fields) (rules : List PolicyRule)
    (f f' : Findings)
    → check_rules matches document rules f ≡ ok f'
    → (v : Violation)
    → Has v (list_of s f') ↔ (
        Has v (list_of s f)
        ⊎ ((v.severity ≡ s) × Any (λ rule. IsViolation matches document rule v) rules))
unfolding check_rules
check_rules_exact s matches document [] f f' e v =
    rw (ok-injective f f' e) (inl, elim [ inl h ↦ h | inr h ↦ absurd h.1 ])
check_rules_exact s matches document (rule ∷ rules) f f' e v =
    elim (Result-cases (check_rule matches document rule)) [
      | inr (x, bad) ↦ cc (rw (check_rules, bad) at e)
      | inl (o, good) ↦
          one_more s matches document rule rules f o v good (
            check_rules_exact s matches document rules (note o f) f' (rw (check_rules, good) at e)
              v)
    ]

-- What a result says of the rules that were evaluated.
abbrev pub IsExact : Matcher → List PolicyRule → Fields → PolicyResult → Type 0
IsExact matches rules document r =
    ((v : Violation)
      → (Has v r.violations
          ↔ ((v.severity ≡ error) × Any (λ rule. IsViolation matches document rule v) rules))
        × (Has v r.warnings
            ↔ ((v.severity ≡ warning) × Any (λ rule. IsViolation matches document rule v) rules)))
    × ((r.passed ≡ true) ↔ (
        (v : Violation)
        → v.severity ≡ error
        → ¬ (Any (λ rule. IsViolation matches document rule v) rules)))

found_exact :
    (s : Severity) (matches : Matcher) (document : Fields) (rules : List PolicyRule) (f : Findings)
    → check_rules matches document rules nothing_found ≡ ok f
    → (v : Violation)
    → Has v (list_of s f)
      ↔ ((v.severity ≡ s) × Any (λ rule. IsViolation matches document rule v) rules)
found_exact error matches document rules f good v =
    left_empty (check_rules_exact error matches document rules nothing_found f good v)
found_exact warning matches document rules f good v =
    left_empty (check_rules_exact warning matches document rules nothing_found f good v)

-- `evaluate`, where it returns, reports as violations just the ERROR rules that apply and whose
-- operator does not hold, and as warnings just the WARNING rules of this kind; it passes a request
-- exactly where there is no such ERROR rule.
pub evaluate_document-IsExact :
    (matches : Matcher) (rules : List PolicyRule) (document : Fields) (r : PolicyResult)
    → evaluate_document matches rules document ≡ ok r
    → IsExact matches rules document r
unfolding evaluate_document
evaluate_document-IsExact matches rules document r e =
    elim (Result-cases (check_rules matches document rules nothing_found)) [
      | inr (x, bad) ↦ cc (rw (evaluate_document, bad) at e)
      | inl (f, good) ↦
          subst (λ x. IsExact matches rules document x)
            (ok-injective _ _ (rw (evaluate_document, good) at e))
            (
              (λ v. (
                found_exact error matches document rules f good v,
                found_exact warning matches document rules f good v,
              )),
              (
                (λ p v is_error any.
                    (is_empty_iff f.violations).0 p v
                      ((found_exact error matches document rules f good v).1 (is_error, any))),
                (λ none. (is_empty_iff f.violations).1 (λ v h.
                    let (is_error, any) = (found_exact error matches document rules f good v).0 h in
                    none v is_error any)),
              ),
            )
    ]
