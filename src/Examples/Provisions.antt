-- ===== src/Examples/Provisions.antt =====
-- A production request that is provisioned, its policies as they are loaded, and the audit log.
use db_platform.Base.{
  String, true, ◌≡◌, refl, some, none, Option, List, [], ◌∷◌, ◌≤◌, arith, Has, inl, inr, length,
  keep, not, ◌==◌, All, if◌then◌else◌,
}
use db_platform.Base.Dict.{get, put}
use db_platform.Base.Frac.{whole}
use db_platform.Base.Result.{ok, err}
use db_platform.Base.Value.{end}
use db_platform.Audit.{verify_chain}
use db_platform.RiskPolicy.Operators.{Matcher}
use db_platform.Request.{
  DatabaseRequest, RequestMetadata, DatabaseSpec, Environment, Platform, DataClassification,
}
use db_platform.Request.Document.{model_dump}
use db_platform.Policy.{PolicyRule, PolicyResult}
use db_platform.Policy.Engine.{evaluate_document}
use db_platform.Policy.Warnings.{blocks, evaluate_document-keep}
use db_platform.Policy.Verdict.{IsExact, evaluate_document-IsExact}
use db_platform.Policy.Loading.{
  PolicyEngine, PolicyDirectory, PolicyDocument, Reader, invalid_file, new_engine, load,
  load_global, load_environments, rules_for, environment_of,
}
use db_platform.Policy.RuleSet.{IsLoaded, load-IsLoaded}
use db_platform.Policy.Shipped.{
  shipped_prod_rules, global_rules, prod_rules, naming_convention_format, naming_not_reserved,
  tagging_cost_center_format, tagging_sensitive_data_requires_audit,
}
use db_platform.Policy.Shipped.Production.{IsProductionGrade}
use db_platform.Policy.Shipped.Permitted.{IsPermitted}
use db_platform.Policy.Shipped.Accepted.{IsProductionGrade-passed, reserved_names}
use db_platform.Readiness.{assess_readiness, score, readiness_threshold_for, earned}
use db_platform.Readiness.Score.{any-Has, score-assess_readiness}
use db_platform.Provisioning.{Provisioner, State, run_hook, provision}
use db_platform.Provisioning.Gate.{GateStep, decisions_of, provision-GateStep}
use db_platform.Provisioning.Requests.{
  Reachable, begins, continues, no_requests, Reachable-log, Reachable-IsPermitted,
  provision-IsProductionGrade,
}

abbrev metadata : RequestMetadata
metadata = record {
  name = "orders";
  environment = Environment.prod;
  owner = "payments";
  cost_center = "CC-4471";
  data_classification = DataClassification.confidential;
}

abbrev spec : DatabaseSpec
spec = record {
  platform = Platform.aws;
  engine_version = "16";
  instance_class = "db.r6g.large";
  storage_gb = 100;
  namespace = "dbre";
  storage_class = none;
  instances = 1;
  resources = record {
    cpu_request = "250m";
    memory_request = "256Mi";
    cpu_limit = "1";
    memory_limit = "1Gi";
  };
  multi_az = true;
  backup_retention_days = 30;
  deletion_protection = true;
  enhanced_monitoring = true;
  connection_limit = 100;
  statement_timeout_ms = 30000;
  idle_in_transaction_timeout_ms = 60000;
  extensions = "pg_stat_statements" ∷ "pgaudit" ∷ [];
  tags = ("team", "payments") ∷ ("provisioned_by", "payments") ∷ [];
  approvals = record { approver = "ana"; ticket = "CHG-1"; approved_at = "2026-01-01" } ∷ [];
  slo = record {
    availability_target = record { num = 9995; den = 10000 };
    latency_p99_ms = 200;
    backup_rpo_hours = whole 24;
    recovery_rto_hours = whole 4;
  };
}

abbrev pub request : DatabaseRequest
request = record { metadata = metadata; spec = spec }

-- A matcher for which each of the patterns of the example matches.
abbrev all_match : Matcher
all_match actual expected = ok true

abbrev policy_document : List PolicyRule → PolicyDocument
policy_document rules = record { environment = none; rules = rules }

abbrev read_policy : Reader
read_policy name =
    if name == "naming"
    then ok (policy_document (naming_convention_format ∷ naming_not_reserved ∷ []))
    else if name == "tagging"
    then ok
        (policy_document (tagging_cost_center_format ∷ tagging_sensitive_data_requires_audit ∷ []))
    else err (invalid_file name)

abbrev read_environment : Reader
read_environment name =
    if name == "prod" then ok (policy_document prod_rules) else err (invalid_file name)

abbrev directory : PolicyDirectory
directory = record { files = "naming" ∷ "tagging" ∷ []; environments = "prod" ∷ [] }

abbrev engine : PolicyEngine
engine = record {
  global_rules = global_rules;
  env_rules = ("prod", prod_rules) ∷ [];
  loaded = true;
}

loads : load read_policy read_environment (some directory) new_engine ≡ (engine, none)
unfolding load load_global load_environments environment_of put
loads = refl

load-IsLoaded_example :
    IsLoaded read_policy read_environment directory engine
    × ((d : Option PolicyDirectory) → load read_policy read_environment d engine ≡ (engine, none))
load-IsLoaded_example = load-IsLoaded read_policy read_environment directory engine loads

abbrev provisioner : Provisioner
provisioner = record {
  matches = all_match;
  engine = engine;
  global_tags = ("provisioned_by", "dbre-platform") ∷ [];
  thresholds = some (("dev", 0) ∷ ("staging", 60) ∷ ("prod", 85) ∷ []);
  hook = λ r. ok (record {
    success = true;
    mode = "aws";
    connection_info = end;
    credentials_location = "secret";
  });
  digest = λ p. p.prev_hash;
  user = "ci";
  now = "2026-01-02";
}

rules_there : rules_for "prod" engine ≡ shipped_prod_rules
unfolding rules_for get
rules_there = refl

threshold_there : readiness_threshold_for provisioner.thresholds "prod" ≤ 85
unfolding readiness_threshold_for get
threshold_there = omega arith

is_free : ¬ (Has request.metadata.name reserved_names)
is_free h = let e = any-Has "orders" reserved_names h in cc

is_grade : IsProductionGrade request
is_grade = record {
  platform_supported = λ e. cc;
  multi_az_enabled = refl;
  backups_kept = omega arith;
  deletion_protected = refl;
  enhanced_monitored = refl;
  approved = omega arith;
  availability_met = omega arith;
  audited = inr (inl refl);
  storage_floor = omega arith;
}

provision-IsProductionGrade_example :
    provision provisioner request no_requests ≡ run_hook provisioner request no_requests
provision-IsProductionGrade_example =
    provision-IsProductionGrade provisioner request no_requests rules_there threshold_there refl
      refl refl is_free is_grade

abbrev after : State
after = (provision provisioner request no_requests).0

provision-GateStep_example :
    GateStep provisioner request (decisions_of no_requests) (decisions_of after)
provision-GateStep_example = provision-GateStep provisioner request no_requests

reached : Reachable provisioner.digest (λ p. rules_for "prod" p.engine ≡ shipped_prod_rules) after
reached = continues provisioner request no_requests refl rules_there begins

Reachable-log_example :
    ((verify_chain provisioner.digest after.log).0 ≡ true)
    × (length (keep (λ e. not (e.payload.outcome == "blocked")) after.log) ≡ length after.started)
Reachable-log_example =
    Reachable-log provisioner.digest (λ p. rules_for "prod" p.engine ≡ shipped_prod_rules) after
      reached

reached_by_rules :
    Reachable provisioner.digest
      (λ p. (rules_for "prod" p.engine ≡ shipped_prod_rules) × (p.matches ≡ all_match))
      after
reached_by_rules = continues provisioner request no_requests refl (rules_there, refl) begins

Reachable-IsPermitted_example :
    All (λ r. r.metadata.environment ≡ Environment.prod → IsPermitted all_match r) after.started
Reachable-IsPermitted_example =
    Reachable-IsPermitted provisioner.digest all_match after reached_by_rules

abbrev verdict : PolicyResult
verdict = record { passed = true; violations = []; warnings = []; evaluated_rules = 13 }

evaluated : evaluate_document all_match shipped_prod_rules (model_dump request) ≡ ok verdict
evaluated = IsProductionGrade-passed all_match request refl refl is_free is_grade

evaluate_document-IsExact_example :
    IsExact all_match shipped_prod_rules (model_dump request) verdict
evaluate_document-IsExact_example =
    evaluate_document-IsExact all_match shipped_prod_rules (model_dump request) verdict evaluated

evaluate_document-keep_example :
    (r : PolicyResult) × (evaluate_document all_match
        (keep blocks shipped_prod_rules)
        (model_dump request)
      ≡ ok r)
    × (r.passed ≡ true)
    × (r.violations ≡ [])
evaluate_document-keep_example =
    evaluate_document-keep all_match shipped_prod_rules (model_dump request) verdict evaluated

score-assess_readiness_example :
    (score (assess_readiness [] none request) ≡ earned (assess_readiness [] none request).checks)
    × (score (assess_readiness [] none request) ≤ 100)
score-assess_readiness_example = score-assess_readiness [] none request

abbrev for_all : List (String × String)
for_all = ("provisioned_by", "dbre-platform") ∷ []
