-- ===== src/Policy/Warnings.antt =====
-- Warnings never block: what the rules of WARNING severity add to `evaluate` of policy/engine.py.
use db_platform.Base.{
  Bool, true, false, Option, none, some, List, [], ◌∷◌, ◌≡◌, refl, ap, sym, ◌∙◌, inl, inr, arith,
  eq_iff, Bool-cases, Option-cases, keep, not, ◌==◌,
}
use db_platform.Base.Result.{ok, ok-injective, Result-cases}
use db_platform.Base.Value.{Fields}
use db_platform.RiskPolicy.Operators.{Matcher}
use db_platform.Policy.{warning, PolicyRule, Violation, PolicyResult}
use db_platform.Policy.Engine.{
  severity_of, check_rule, Findings, note, check_rules, nothing_found, result_of, evaluate_document,
}
use db_platform.Policy.Verdict.{check_rule_iff, Severity-cases}

severity_of-same :
    (matches : Matcher) (document : Fields) (rule : PolicyRule) (v : Violation)
    → check_rule matches document rule ≡ ok (some v)
    → severity_of rule.severity ≡ ok v.severity
severity_of-same matches document rule v e =
    let i = (check_rule_iff matches document rule v).0 e in i.severity_is

-- Whether the rule is one that only warns.
abbrev pub only_warns : PolicyRule → Bool
only_warns rule = elim rule.severity [ none ↦ false | some s ↦ s == "warning" ]

abbrev pub blocks : PolicyRule → Bool
blocks rule = not (only_warns rule)

only_warns-severity :
    (rule : PolicyRule) → only_warns rule ≡ true → severity_of rule.severity ≡ ok warning
unfolding severity_of
only_warns-severity rule h = elim (Option-cases rule.severity) [
  | inl n ↦ cc (rw n at h)
  | inr (s, n) ↦ elim (Bool-cases (s == "error")) [
    | inl e ↦ cc (rw (n, (eq_iff s "error").0 e) at h)
    | inr e ↦ rw (n, e) (rw (rw n at h) refl)
  ]
]

note-violations :
    (o : Option Violation) (f g : Findings)
    → f.violations ≡ g.violations
    → (note o f).violations ≡ (note o g).violations
unfolding note
note-violations none f g h = h
note-violations (some v) f g h = ground (arith, Severity-cases v.severity)

note-warning :
    (o : Option Violation) (f : Findings)
    → ((v : Violation) → o ≡ some v → v.severity ≡ warning)
    → (note o f).violations ≡ f.violations
unfolding note
note-warning none f h = refl
note-warning (some v) f h = rw (h v refl) refl

-- A rule that only warns adds no violation.
warned :
    (matches : Matcher) (document : Fields) (rule : PolicyRule) (o : Option Violation)
    → only_warns rule ≡ true
    → check_rule matches document rule ≡ ok o
    → (v : Violation) → o ≡ some v
    → v.severity ≡ warning
warned matches document rule o h e v is = sym (
    ok-injective _ _
      (sym (only_warns-severity rule h) ∙ severity_of-same matches document rule v (e ∙ ap ok is)))

-- The violations without the warnings.
check_blocking :
    (matches : Matcher) (document : Fields) (rules : List PolicyRule) (f f' g : Findings)
    → check_rules matches document rules f ≡ ok f'
    → f.violations ≡ g.violations
    → (g' : Findings) × (check_rules matches document (keep blocks rules) g ≡ ok g')
      × (f'.violations ≡ g'.violations)
unfolding check_rules
check_blocking matches document [] f f' g e same = (g, refl, rw (← ok-injective f f' e) same)
check_blocking matches document (rule ∷ rules) f f' g e same =
    elim (Result-cases (check_rule matches document rule)) [
      | inr (x, bad) ↦ cc (rw (check_rules, bad) at e)
      | inl (o, good) ↦ elim (Bool-cases (only_warns rule)) [
        | inl warns ↦
            let (g', made, kept) =
              check_blocking matches document rules (note o f) f' g (rw (check_rules, good) at e)
                (note-warning o f (warned matches document rule o warns good) ∙ same) in
            (g', rw warns made, kept)
        | inr errs ↦
            let (g', made, kept) =
              check_blocking matches document rules (note o f) f' (note o g)
                (rw (check_rules, good) at e) (note-violations o f g same) in
            (g', rw (errs, check_rules, good) made, kept)
      ]
    ]

-- Where `evaluate` returns, it returns without the rules that only warn too, with the same verdict
-- and the same violations.
pub evaluate_document-keep :
    (matches : Matcher) (rules : List PolicyRule) (document : Fields) (r : PolicyResult)
    → evaluate_document matches rules document ≡ ok r
    → (r' : PolicyResult) × (evaluate_document matches (keep blocks rules) document ≡ ok r')
      × (r'.passed ≡ r.passed)
      × (r'.violations ≡ r.violations)
unfolding evaluate_document
evaluate_document-keep matches rules document r e =
    elim (Result-cases (check_rules matches document rules nothing_found)) [
      | inr (x, bad) ↦ cc (rw (evaluate_document, bad) at e)
      | inl (f, good) ↦
          let (g, made, same) =
            check_blocking matches document rules nothing_found f nothing_found good refl in
          let result = ok-injective _ _ (rw (evaluate_document, good) at e) in
          (
            result_of (keep blocks rules) g,
            rw (evaluate_document, made) refl,
            rw (← same) (ap (λ x. x.passed) result),
            sym same ∙ ap (λ x. x.violations) result,
          )
    ]
