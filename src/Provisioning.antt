-- ===== src/Provisioning.antt =====
-- provisioning/base.py: `Provisioner.provision`, the gate that every database goes through. The
-- hook of the subclass, `_provision`, is an argument, with what it returns or raises; the state is
-- the audit log and the requests that the hook was called with, the latest one last.
pub mod Gate
pub mod Requests
use db_platform.Base.{
  ℕ, String, Bool, true, false, Option, none, some, List, [], ◌∷◌, ◌++◌, if◌then◌else◌,
}
use db_platform.Base.Frac.{whole}
use db_platform.Base.Number.{plus}
use db_platform.Base.Result.{Result, ok, err}
use db_platform.Base.Value.{
  Value, Items, Fields, number, str, items, mapping, nil, cons, end, field,
}
use db_platform.Audit.{Action, AuditEvent, Digest, record_action}
use db_platform.Request.{DatabaseRequest, environment_name, full_name}
use db_platform.RiskPolicy.Operators.{Matcher}
use db_platform.Policy.{RuleError, Violation, PolicyResult}
use db_platform.Policy.Loading.{PolicyEngine, evaluate_request}
use db_platform.Readiness.{ReadinessAssessment, assess_readiness, passed, score}

pub record ProvisionResult : Type 0 where
  pub success : Bool
  pub mode : String
  pub connection_info : Fields
  pub credentials_location : String

-- What `provision` raises: what the evaluation of the policies raises, PolicyViolationError,
-- ReadinessError, and the exception of the hook.
pub data ProvisionError : Type 0 where
  policy_error : RuleError → ProvisionError
  policy_violation : PolicyResult → ProvisionError
  not_ready : ReadinessAssessment → ProvisionError
  hook_failed : String → ProvisionError

abbrev pub Hook : Type 0
Hook = DatabaseRequest → Result String ProvisionResult

-- What a provisioner is made of, and the world that it reads: the policies, the clock and the
-- user of one call.
pub record Provisioner : Type 0 where
  pub matches : Matcher
  pub engine : PolicyEngine
  pub global_tags : List (String × String)
  pub thresholds : Option (List (String × ℕ))
  pub hook : Hook
  pub digest : Digest
  pub user : String
  pub now : String

pub record State : Type 0 where
  pub log : List AuditEvent
  pub started : List DatabaseRequest

unfoldable pub rule_ids : List Violation → Items
rule_ids [] = nil
rule_ids (v ∷ vs) = cons (str v.rule_id) (rule_ids vs)

unfoldable pub provision_action : DatabaseRequest → String → Fields → Action
unfolding full_name environment_name
provision_action request outcome details = record {
  action = "provision";
  target = full_name request;
  environment = environment_name request.metadata.environment;
  outcome = outcome;
  actor = none;
  details = some details;
}

unfoldable pub record_outcome : Provisioner → DatabaseRequest → String → Fields → State → State
unfolding record_action provision_action
record_outcome p request outcome details s = record s {
  log = record_action p.digest p.user p.now (provision_action request outcome details) s.log;
}

unfoldable pub violation_details : PolicyResult → Fields
unfolding rule_ids
violation_details result =
    field "reason" (str "policy_violation")
      (field "violations" (items (rule_ids result.violations)) end)

unfoldable pub readiness_details : ReadinessAssessment → Fields
unfolding score
readiness_details readiness = field "reason" (str "readiness_below_threshold") (
    field "score" (number (plus (whole (score readiness))))
      (field "threshold" (number (plus (whole readiness.threshold))) end))

unfoldable pub result_details : ProvisionResult → Fields
result_details result = field "mode" (str result.mode) (
    field "connection_info" (mapping result.connection_info)
      (field "credentials_location" (str result.credentials_location) end))

-- The part after the gate: the call of the hook, and its event.
unfoldable pub run_hook :
    Provisioner → DatabaseRequest → State → State × Result ProvisionError ProvisionResult
unfolding record_outcome result_details
run_hook p request s =
    let called : State = record s { started = s.started ++ request ∷ [] } in
    elim (p.hook request) [
      | err message ↦ (
        record_outcome p request "failure" (field "error" (str message) end) called,
        err (hook_failed message),
      )
      | ok result ↦ (
        record_outcome p request (if result.success then "success" else "failure")
            (result_details result) called,
        ok result,
      )
    ]

unfoldable pub provision :
    Provisioner → DatabaseRequest → State → State × Result ProvisionError ProvisionResult
unfolding evaluate_request assess_readiness passed run_hook record_outcome violation_details
    readiness_details
provision p request s = elim (evaluate_request p.matches p.engine request) [
  | err e ↦ (s, err (policy_error e))
  | ok result ↦
      let readiness = assess_readiness p.global_tags p.thresholds request in
      elim result.passed [
        | false ↦ (
          record_outcome p request "blocked" (violation_details result) s,
          err (policy_violation result),
        )
        | true ↦ elim (passed readiness) [
          | false ↦ (
            record_outcome p request "blocked" (readiness_details readiness) s,
            err (not_ready readiness),
          )
          | true ↦ run_hook p request s
        ]
      ]
]
