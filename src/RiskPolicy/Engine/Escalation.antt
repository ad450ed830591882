-- ===== src/RiskPolicy/Engine/Escalation.antt =====
-- What `evaluate` of policy/engine.py makes of the rules whose conditions hold.
use mathlib.Core.Path.{subst}
use db_platform.Base.{
  ℕ, ◌≤◌, ◌≡◌, refl, sym, ap, ◌∙◌, Bool, true, false, Option, none, some, List, [], ◌∷◌, arith, ltb,
  keep, Has, All, inl, inr, ◌⊎◌, Bool-cases,
}
use db_platform.Base.Result.{ok, err, ok-injective, Result-cases}
use db_platform.Base.Value.{Value}
use db_platform.Change.{Change}
use db_platform.Risk.{RiskLevel, rank, above}
use db_platform.Risk.Engine.{ChangeRiskAssessment}
use db_platform.RiskPolicy.{RiskPolicyRule}
use db_platform.RiskPolicy.Operators.{Matcher}
use db_platform.RiskPolicy.Engine.{
  Outcome, all_hold, candidate_of, raised, pass_over, act, apply_rule, apply_rules, no_outcome,
  evaluate,
}
use db_platform.RiskPolicy.Document.{document_of}

module _ (matches : Matcher) (document : Value) where
  -- The conditions of a rule hold.
  abbrev pub holds : RiskPolicyRule → Bool
  holds rule = elim (all_hold matches document rule.conditions) [ ok b ↦ b | err _ ↦ false ]

  -- The rules that act, in their order.
  abbrev pub fired : List RiskPolicyRule → List RiskPolicyRule
  fired rules = keep holds rules

  pub data RuleStep (rule : RiskPolicyRule) (o o' : Outcome) : Type 0 where
    passed : holds rule ≡ false → o' ≡ pass_over rule o → RuleStep rule o o'
    acted :
        (c : Option RiskLevel)
        → holds rule ≡ true
        → candidate_of rule ≡ ok c
        → o' ≡ act rule c o
        → RuleStep rule o o'

  apply_rule-cases :
      (rule : RiskPolicyRule) (o o' : Outcome)
      → apply_rule matches document rule o ≡ ok o'
      → RuleStep rule o o'
  unfolding apply_rule
  apply_rule-cases rule o o' e = elim (Result-cases (all_hold matches document rule.conditions)) [
    | inr (x, bad) ↦ cc (rw (bad, apply_rule) at e)
    | inl (false, k) ↦
        passed (rw (k, holds) refl) (ok-injective _ _ (sym (rw (k, apply_rule) at e)))
    | inl (true, k) ↦ elim (Result-cases (candidate_of rule)) [
      | inr (x, bad) ↦ cc (rw (k, bad, apply_rule) at e)
      | inl (c, named) ↦
          acted c (rw (k, holds) refl) named
            (ok-injective _ _ (sym (rw (k, named, apply_rule) at e)))
    ]
  ]

  pub apply_rules-step :
      (rule : RiskPolicyRule) (rules : List RiskPolicyRule) (o o' : Outcome)
      → apply_rules matches document (rule ∷ rules) o ≡ ok o'
      → (t : Outcome) × RuleStep rule o t × (apply_rules matches document rules t ≡ ok o')
  unfolding apply_rules
  apply_rules-step rule rules o o' e = elim (Result-cases (apply_rule matches document rule o)) [
    | inr (x, bad) ↦ cc (rw (bad, apply_rules) at e)
    | inl (t, k) ↦ (t, apply_rule-cases rule o t k, rw (k, apply_rules) at e)
  ]

-- The rank of the level that a rule sets, and 0, the least, where it sets none.
abbrev pub set_rank : RiskPolicyRule → ℕ
set_rank rule = elim (candidate_of rule) [
  | err _ ↦ 0
  | ok c ↦ elim c [ none ↦ 0 | some level ↦ rank level ]
]

-- The final level against the level at the start and the rules that act.
pub record IsRaised (acting : List RiskPolicyRule) (start final : RiskLevel) : Type 0 where
  pub from_start : rank start ≤ rank final
  pub from_rules : All (λ rule. set_rank rule ≤ rank final) acting
  pub reason :
      (final ≡ start) ⊎ ((rule : RiskPolicyRule) × Has rule acting × (set_rank rule ≡ rank final))

raised-rank :
    (rule : RiskPolicyRule) (c : Option RiskLevel) (level : RiskLevel)
    → candidate_of rule ≡ ok c
    → (rank level ≤ rank (raised c level))
      × (set_rank rule ≤ rank (raised c level))
      × ((raised c level ≡ level) ⊎ (set_rank rule ≡ rank (raised c level)))
unfolding raised above
raised-rank rule none level e = rw (e, set_rank) (omega arith, omega arith, inl refl)
raised-rank rule (some c) level e = elim (Bool-cases (ltb (rank level) (rank c))) [
  | inl more ↦ rw (e, set_rank, more) (ground arith, omega arith, inr refl)
  | inr less ↦ rw (e, set_rank, less) (omega arith, ground arith, inl refl)
]

module _ (matches : Matcher) (document : Value) where
  apply_rules-IsRaised :
      (rules : List RiskPolicyRule) (o o' : Outcome)
      → apply_rules matches document rules o ≡ ok o'
      → IsRaised (fired matches document rules) o.final_level o'.final_level
  unfolding apply_rules pass_over act
  apply_rules-IsRaised [] o o' e =
      subst (λ (x : Outcome). IsRaised [] o.final_level x.final_level) (ok-injective _ _ e)
        (record { from_start = omega arith; from_rules = tt; reason = inl refl })
  apply_rules-IsRaised (rule ∷ rules) o o' e =
      let (t, st, rest) = apply_rules-step matches document rule rules o o' e in
      let later = apply_rules-IsRaised rules t o' rest in
      elim st [
        | passed off is ↦
            let same : t.final_level ≡ o.final_level = ap (λ (x : Outcome). x.final_level) is in
            rw off
              (subst (λ l. IsRaised (fired matches document rules) l o'.final_level) same later)
        | acted c on named is ↦
            let same : t.final_level ≡ raised c o.final_level =
              ap (λ (x : Outcome). x.final_level) is in
            let (up, at_least, why) = raised-rank rule c o.final_level named in
            let l =
              subst (λ l. IsRaised (fired matches document rules) l o'.final_level) same later in
            rw on (record {
              from_start = omega (arith, up, l.from_start);
              from_rules = (omega (arith, at_least, l.from_start), l.from_rules);
              reason = elim l.reason [
                | inr (r, h, k) ↦ inr (r, inr h, k)
                | inl stays ↦ elim why [
                  | inl unchanged ↦ inl (stays ∙ unchanged)
                  | inr by ↦ inr (rule, inl refl, by ∙ ap rank (sym stays))
                ]
              ];
            })
      ]

-- An evaluation that returns never lowers the level of the assessment. Its final level is at least
-- what each rule sets whose conditions hold, and it is the level of the assessment or one that such
-- a rule sets.
pub evaluate_only_escalates :
    (matches : Matcher) (rules : List RiskPolicyRule) (change : Change)
    (assessment : ChangeRiskAssessment) (o : Outcome)
    → evaluate matches rules change assessment ≡ ok o
    → IsRaised
        (fired matches (document_of change assessment) rules)
        assessment.risk_level
        o.final_level
unfolding evaluate
evaluate_only_escalates matches rules change assessment o e =
    apply_rules-IsRaised matches (document_of change assessment) rules
      (no_outcome assessment.risk_level) o e
