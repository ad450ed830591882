-- ===== src/Provisioning/Requests.antt =====
-- Any sequence of calls of `provision` of provisioning/base.py on one audit log, each with its own
-- policies, hook, clock and user.
use mathlib.Core.Path.{subst}
use db_platform.Base.{
  String, Bool, true, List, [], ◌∷◌, ◌++◌, ◌≡◌, refl, sym, ap, ◌∙◌, not, ◌⊎◌, inl, inr, Bool-cases,
  All, All-append, length, length-append, keep, keep-append, ◌==◌, map, arith, Has, le→leb, ◌≤◌,
}
use db_platform.Base.Value.{Fields, str}
use db_platform.Base.Result.{ok, Result-cases}
use db_platform.Audit.{AuditEvent, Digest, verify_chain}
use db_platform.Audit.Chain.{record_action_verifies}
use db_platform.Request.{DatabaseRequest, Environment, environment_name, full_name}
use db_platform.Request.Document.{model_dump}
use db_platform.Policy.{PolicyResult}
use db_platform.RiskPolicy.Operators.{Matcher}
use db_platform.Policy.Shipped.Permitted.{IsPermitted, evaluated-IsPermitted}
use db_platform.Policy.Engine.{evaluate_document}
use db_platform.Policy.Loading.{evaluate_request, rules_for}
use db_platform.Policy.Shipped.{shipped_prod_rules}
use db_platform.Policy.Shipped.Production.{IsProductionGrade}
use db_platform.Readiness.{assess_readiness, passed, score, readiness_threshold_for}
use db_platform.Readiness.Score.{IsProductionGrade-score}
use db_platform.Policy.Shipped.Accepted.{IsProductionGrade-passed, reserved_names}
use db_platform.Provisioning.{
  Provisioner, State, record_outcome, provision_action, run_hook, provision,
}
use db_platform.Provisioning.Gate.{
  Decisions, decision_of, GateStep, provision-GateStep, raises, blocks, fails, succeeds,
}

abbrev pub no_requests : State
no_requests = record { log = []; started = [] }

-- The states that calls lead to, from an empty log on; `Allowed` says which provisioners are used.
pub data Reachable (digest : Digest) (Allowed : Provisioner → Type 0) : State → Type 0 where
  begins : Reachable digest Allowed no_requests
  continues :
      (p : Provisioner) (request : DatabaseRequest) (s : State)
      → p.digest ≡ digest
      → Allowed p
      → Reachable digest Allowed s
      → Reachable digest Allowed (provision p request s).0

record_outcome_verifies :
    (p : Provisioner) (request : DatabaseRequest) (outcome : String) (details : Fields) (s : State)
    → (verify_chain p.digest s.log).0 ≡ true
    → (verify_chain p.digest (record_outcome p request outcome details s).log).0 ≡ true
unfolding record_outcome
record_outcome_verifies p request outcome details s h =
    record_action_verifies p.digest p.user p.now (provision_action request outcome details) s.log h

run_hook_verifies :
    (p : Provisioner) (request : DatabaseRequest) (s : State)
    → (verify_chain p.digest s.log).0 ≡ true
    → (verify_chain p.digest (run_hook p request s).0.log).0 ≡ true
unfolding run_hook
run_hook_verifies p request s h = elim (Result-cases (p.hook request)) [
  | inr (message, bad) ↦
      rw (run_hook, bad)
        (record_outcome_verifies p request "failure" _
          (record s { started = s.started ++ request ∷ [] }) h)
  | inl (result, good) ↦
      rw (run_hook, good)
        (record_outcome_verifies p request _ _ (record s { started = s.started ++ request ∷ [] }) h)
]

provision_verifies :
    (p : Provisioner) (request : DatabaseRequest) (s : State)
    → (verify_chain p.digest s.log).0 ≡ true
    → (verify_chain p.digest (provision p request s).0.log).0 ≡ true
unfolding provision
provision_verifies p request s h =
    elim (Result-cases (evaluate_request p.matches p.engine request)) [
      | inr (e, bad) ↦ rw (provision, bad) h
      | inl (r, good) ↦ elim (Bool-cases r.passed) [
        | inr broken ↦
            rw (provision, good, broken) (record_outcome_verifies p request "blocked" _ s h)
        | inl complied ↦
            elim (Bool-cases (passed (assess_readiness p.global_tags p.thresholds request))) [
              | inr low ↦
                  rw (provision, good, complied, low)
                    (record_outcome_verifies p request "blocked" _ s h)
              | inl high ↦ rw (provision, good, complied, high) (run_hook_verifies p request s h)
            ]
      ]
    ]

run_hook-started :
    (p : Provisioner) (request : DatabaseRequest) (s : State)
    → (run_hook p request s).0.started ≡ s.started ++ request ∷ []
unfolding run_hook record_outcome
run_hook-started p request s = elim (Result-cases (p.hook request)) [
  | inr (message, bad) ↦ rw (run_hook, bad) refl
  | inl (result, good) ↦ rw (run_hook, good) refl
]

abbrev not_blocked : String × String → Bool
not_blocked (_, outcome) = not (outcome == "blocked")

-- As many events that are not "blocked" as requests that were started.
abbrev IsAccounted : Decisions → Type 0
IsAccounted d = length (keep not_blocked d.decided) ≡ length d.started

GateStep-IsAccounted :
    (p : Provisioner) (request : DatabaseRequest) (d d' : Decisions)
    → GateStep p request d d'
    → IsAccounted d
    → IsAccounted d'
GateStep-IsAccounted p request d d' (raises e _ h) i = i
GateStep-IsAccounted p request d d' (blocks _ h) i =
    rw (keep-append not_blocked d.decided (full_name request, "blocked")) i
GateStep-IsAccounted p request d d' (fails _ h) i =
    rw
      (
        keep-append not_blocked d.decided (full_name request, "failure"),
        length-append (keep not_blocked d.decided),
        length-append d.started,
        i,
      )
      refl
GateStep-IsAccounted p request d d' (succeeds _ h) i =
    rw
      (
        keep-append not_blocked d.decided (full_name request, "success"),
        length-append (keep not_blocked d.decided),
        length-append d.started,
        i,
      )
      refl

not_blocked-map :
    (log : List AuditEvent)
    → length (keep not_blocked (map decision_of log))
      ≡ length (keep (λ e. not (e.payload.outcome == "blocked")) log)
not_blocked-map [] = refl
not_blocked-map (e ∷ log) = ground (arith, not_blocked-map log)

-- After any sequence of requests the audit log verifies, and has as many events that are not
-- "blocked" as times the hook was called.
pub Reachable-log :
    (digest : Digest) (Allowed : Provisioner → Type 0) (s : State)
    → Reachable digest Allowed s
    → ((verify_chain digest s.log).0 ≡ true)
      × (length (keep (λ e. not (e.payload.outcome == "blocked")) s.log) ≡ length s.started)
unfolding verify_chain
Reachable-log digest Allowed s begins = (refl, refl)
Reachable-log digest Allowed s (continues p request before same allowed h) =
    let (verifies, accounted) = Reachable-log digest Allowed before h in
    (
      rw (← same) (provision_verifies p request before (rw same verifies)),
      sym (not_blocked-map (provision p request before).0.log)
          ∙ GateStep-IsAccounted p request _ _ (provision-GateStep p request before)
              (not_blocked-map before.log ∙ accounted),
    )

-- A request that the hook was called with was evaluated and passed.
started_evaluated :
    (p : Provisioner) (request : DatabaseRequest) (s : State)
    → ((provision p request s).0.started ≡ s.started)
      ⊎ (((provision p request s).0.started ≡ s.started ++ request ∷ [])
          × (r : PolicyResult) × (evaluate_request p.matches p.engine request ≡ ok r)
          × (r.passed ≡ true))
unfolding provision record_outcome
started_evaluated p request s = elim (Result-cases (evaluate_request p.matches p.engine request)) [
  | inr (e, bad) ↦ inl (rw (provision, bad) refl)
  | inl (r, good) ↦ elim (Bool-cases r.passed) [
    | inr broken ↦ inl (rw (provision, good, broken) refl)
    | inl complied ↦
        elim (Bool-cases (passed (assess_readiness p.global_tags p.thresholds request))) [
          | inr low ↦ inl (rw (provision, good, complied, low) refl)
          | inl high ↦ inr (
            rw (provision, good, complied, high) (run_hook-started p request s),
            r,
            good,
            complied,
          )
        ]
  ]
]

-- Where production has the shipped rules in every call, and every call has the same matching of
-- patterns, each production request that the hook was called with meets what the rules ask for: it is
-- on a platform other than the local one, with failover, deletion protection, enhanced monitoring
-- and pgaudit, keeps backups for at least 30 days, has an approval, an availability target of at
-- least 0.999 and at least 100 GB, its name is not reserved, and its name and its cost center match
-- their patterns.
pub Reachable-IsPermitted :
    (digest : Digest) (matches : Matcher) (s : State)
    → Reachable digest
        (λ p. (rules_for "prod" p.engine ≡ shipped_prod_rules) × (p.matches ≡ matches))
        s
    → All
        (λ request. request.metadata.environment ≡ Environment.prod → IsPermitted matches request)
        s.started
unfolding evaluate_request environment_name
Reachable-IsPermitted digest matches s begins = tt
Reachable-IsPermitted digest matches s (continues p request before same shipped h) =
    let old = Reachable-IsPermitted digest matches before h in
    elim (started_evaluated p request before) [
      | inl kept ↦ rw kept old
      | inr (more, r, evaluated, accepted) ↦ rw more (
          All-append _ before.started (request ∷ []) old (
            (λ in_prod.
                subst (λ m. IsPermitted m request) shipped.1
                  (evaluated-IsPermitted p.matches request r
                    (subst (λ rules. evaluate_document p.matches rules (model_dump request) ≡ ok r)
                      (ap (λ e. rules_for (environment_name e) p.engine) in_prod ∙ shipped.0)
                      evaluated)
                    accepted)),
            tt,
          ))
    ]

-- Where production has the shipped rules and a threshold of at most 85, the gate lets through every
-- production request that has what the rules ask for, whose name is not reserved and whose name and
-- cost center match their patterns: `provision` calls the hook.
pub provision-IsProductionGrade :
    (p : Provisioner) (request : DatabaseRequest) (s : State)
    → rules_for "prod" p.engine ≡ shipped_prod_rules
    → readiness_threshold_for p.thresholds "prod" ≤ 85
    → request.metadata.environment ≡ Environment.prod
    → p.matches (str request.metadata.name) (str "^[a-z][a-z0-9-]{2,49}$") ≡ ok true
    → p.matches (str request.metadata.cost_center) (str "^CC-[0-9]{3,6}$") ≡ ok true
    → ¬ (Has request.metadata.name reserved_names)
    → IsProductionGrade request
    → provision p request s ≡ run_hook p request s
unfolding provision evaluate_request passed environment_name assess_readiness
provision-IsProductionGrade p request s rules threshold in_prod named costed free grade =
    let a = assess_readiness p.global_tags p.thresholds request in
    let score_high = IsProductionGrade-score request in_prod grade p.global_tags p.thresholds in
    let accepted = IsProductionGrade-passed p.matches request named costed free grade in
    let evaluated : evaluate_request p.matches p.engine request
        ≡ ok (record { passed = true; violations = []; warnings = []; evaluated_rules = 13 }) =
      ap (λ rs. evaluate_document p.matches rs (model_dump request))
        (ap (λ e. rules_for (environment_name e) p.engine) in_prod ∙ rules)
      ∙ accepted in
    let low_threshold : a.threshold ≤ 85 = rw in_prod threshold in
    let ready : passed a ≡ true = le→leb a.threshold (score a) (omega arith) in
    rw (provision, evaluated, ready) refl
