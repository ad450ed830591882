-- ===== src/Provisioning/Gate.antt =====
-- The gate of provisioning/base.py, against a description of it that knows only what was decided
-- on each request, and which requests the hook was called with.
use mathlib.Core.Path.{subst}
use db_platform.Base.{
  String, true, List, [], ◌∷◌, ◌++◌, ◌≡◌, refl, sym, ap, ◌≤◌, ◌↔◌, inl, inr, Bool-cases, leb→le,
  le→leb, Any, map,
}
use db_platform.Base.Result.{ok, err, Result-cases}
use db_platform.Base.Value.{Fields}
use db_platform.Audit.{AuditEvent, record_action, event_of}
use db_platform.Request.{DatabaseRequest, environment_name, full_name}
use db_platform.Request.Document.{model_dump}
use db_platform.Policy.{error, RuleError, Violation, PolicyRule, PolicyResult}
use db_platform.Policy.Loading.{evaluate_request, rules_for}
use db_platform.Policy.Verdict.{IsViolation, evaluate_document-IsExact}
use db_platform.Readiness.{assess_readiness, passed, score}
use db_platform.Provisioning.{
  Provisioner, State, record_outcome, provision_action, run_hook, provision,
}

-- The rules that the engine has for the environment of a request.
abbrev pub rules_of : Provisioner → DatabaseRequest → List PolicyRule
rules_of p request = rules_for (environment_name request.metadata.environment) p.engine

-- No ERROR rule that applies is broken, and the score reaches the threshold.
pub record IsAdmitted (p : Provisioner) (request : DatabaseRequest) : Type 0 where
  pub complies :
      (v : Violation)
      → v.severity ≡ error
      → ¬ (Any (λ rule. IsViolation p.matches (model_dump request) rule v) (rules_of p request))
  pub ready :
      (assess_readiness p.global_tags p.thresholds request).threshold
      ≤ score (assess_readiness p.global_tags p.thresholds request)

-- The target and the outcome of each event.
pub record Decisions : Type 0 where
  pub decided : List (String × String)
  pub started : List DatabaseRequest

abbrev pub decision_of : AuditEvent → String × String
decision_of e = (e.payload.target, e.payload.outcome)

abbrev pub decisions_of : State → Decisions
decisions_of s = record { decided = map decision_of s.log; started = s.started }

abbrev decision : DatabaseRequest → String → Decisions → Decisions
decision request outcome d = record d { decided = d.decided ++ (full_name request, outcome) ∷ [] }

abbrev begun : DatabaseRequest → Decisions → Decisions
begun request d = record d { started = d.started ++ request ∷ [] }

-- What may happen to a request: its rules cannot be evaluated; it is blocked; it is provisioned,
-- well or not.
pub data GateStep (p : Provisioner) (request : DatabaseRequest)
    : Decisions → Decisions → Type 0 where
  raises :
      (e : RuleError) (d : Decisions)
      → evaluate_request p.matches p.engine request ≡ err e
      → GateStep p request d d
  blocks :
      (d : Decisions)
      → ¬ (IsAdmitted p request)
      → GateStep p request d (decision request "blocked" d)
  fails :
      (d : Decisions)
      → IsAdmitted p request
      → GateStep p request d (decision request "failure" (begun request d))
  succeeds :
      (d : Decisions)
      → IsAdmitted p request
      → GateStep p request d (decision request "success" (begun request d))

map-concat :
    (log : List AuditEvent) (e : AuditEvent)
    → map decision_of (log ++ e ∷ []) ≡ map decision_of log ++ decision_of e ∷ []
map-concat [] e = refl
map-concat (x ∷ log) e = ap (λ l. decision_of x ∷ l) (map-concat log e)

decisions_of-record_outcome :
    (p : Provisioner) (request : DatabaseRequest) (outcome : String) (details : Fields) (s : State)
    → decisions_of (record_outcome p request outcome details s)
      ≡ decision request outcome (decisions_of s)
unfolding record_outcome record_action provision_action event_of
decisions_of-record_outcome p request outcome details s =
    ap (λ l. record { decided = l; started = s.started }) (map-concat s.log _)

IsAdmitted-iff :
    (p : Provisioner) (request : DatabaseRequest) (r : PolicyResult)
    → evaluate_request p.matches p.engine request ≡ ok r
    → ((r.passed ≡ true) × (passed (assess_readiness p.global_tags p.thresholds request) ≡ true))
      ↔ IsAdmitted p request
unfolding evaluate_request passed
IsAdmitted-iff p request r e =
    let a = assess_readiness p.global_tags p.thresholds request in
    let (_, verdict) =
      evaluate_document-IsExact p.matches (rules_of p request) (model_dump request) r e in
    (
      λ h. record { complies = verdict.0 h.0; ready = leb→le a.threshold (score a) h.1 },
      λ i. (verdict.1 i.complies, le→leb a.threshold (score a) i.ready),
    )

decided :
    (p : Provisioner) (request : DatabaseRequest) (outcome : String) (details : Fields) (s : State)
    (before : Decisions)
    → GateStep p request before (decision request outcome (decisions_of s))
    → GateStep p request before (decisions_of (record_outcome p request outcome details s))
decided p request outcome details s before step =
    subst (GateStep p request before)
      (sym (decisions_of-record_outcome p request outcome details s)) step

run_hook-step :
    (p : Provisioner) (request : DatabaseRequest) (s : State)
    → IsAdmitted p request
    → GateStep p request (decisions_of s) (decisions_of (run_hook p request s).0)
unfolding run_hook
run_hook-step p request s i = elim (Result-cases (p.hook request)) [
  | inr (message, bad) ↦
      rw (run_hook, bad) (decided p request "failure" _ _ _ (fails (decisions_of s) i))
  | inl (result, good) ↦ elim (Bool-cases result.success) [
    | inl fine ↦
        rw (run_hook, good, fine) (decided p request "success" _ _ _ (succeeds (decisions_of s) i))
    | inr broken ↦
        rw (run_hook, good, broken) (decided p request "failure" _ _ _ (fails (decisions_of s) i))
  ]
]

-- `provision` does one step of the abstract gate: it changes nothing where the rules cannot be
-- evaluated; else it notes one decision, which is "blocked" exactly where the request is not
-- admitted, and it calls the hook, once, exactly where it is.
pub provision-GateStep :
    (p : Provisioner) (request : DatabaseRequest) (s : State)
    → GateStep p request (decisions_of s) (decisions_of (provision p request s).0)
unfolding provision
provision-GateStep p request s =
    let a = assess_readiness p.global_tags p.thresholds request in
    elim (Result-cases (evaluate_request p.matches p.engine request)) [
      | inr (e, bad) ↦ rw (provision, bad) (raises e (decisions_of s) bad)
      | inl (r, good) ↦
          let admitted = IsAdmitted-iff p request r good in
          elim (Bool-cases r.passed) [
            | inr broken ↦
                rw (provision, good, broken)
                  (decided p request "blocked" _ s _
                    (blocks (decisions_of s) (λ i. let same = (admitted.1 i).0 in cc)))
            | inl complied ↦ elim (Bool-cases (passed a)) [
              | inr low ↦
                  rw (provision, good, complied, low)
                    (decided p request "blocked" _ s _
                      (blocks (decisions_of s) (λ i. let same = (admitted.1 i).1 in cc)))
              | inl high ↦
                  rw (provision, good, complied, high)
                    (run_hook-step p request s (admitted.0 (complied, high)))
            ]
          ]
    ]
