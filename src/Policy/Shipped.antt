-- ===== src/Policy/Shipped.antt =====
-- The rules that the repository ships for production: those of policies/naming.yaml and
-- policies/tagging.yaml, which are for every environment, and those of
-- policies/environments/prod.yaml. Descriptions and messages are left out.
pub mod Production
pub mod Accepted
pub mod Permitted
use db_platform.Base.{ℕ, String, true, Option, none, some, List, [], ◌∷◌, ◌++◌}
use db_platform.Base.Frac.{Frac, whole}
use db_platform.Base.Number.{plus}
use db_platform.Base.Value.{Value, Items, boolean, number, str, items, nil, cons}
use db_platform.Request.Document.{texts}
use db_platform.Policy.{RuleCondition, PolicyRule}

abbrev pub error_rule : String → String → String → Value → PolicyRule
error_rule id field operator value = record {
  id = some id;
  when = none;
  field = some field;
  operator = some operator;
  value = some value;
  severity = some "error";
}

abbrev pub list_value : List String → Value
list_value ws = items (texts ws)

abbrev pub count_value : ℕ → Value
count_value n = number (plus (whole n))

abbrev pub naming_convention_format : PolicyRule
naming_convention_format =
    error_rule "naming-convention-format" "metadata.name" "regex" (str "^[a-z][a-z0-9-]{2,49}$")

abbrev pub naming_not_reserved : PolicyRule
naming_not_reserved =
    error_rule "naming-not-reserved" "metadata.name" "not_in"
      (list_value ("admin" ∷ "postgres" ∷ "root" ∷ "template0" ∷ "template1" ∷ "rdsadmin" ∷ []))

abbrev pub tagging_cost_center_format : PolicyRule
tagging_cost_center_format =
    error_rule "tagging-cost-center-format" "metadata.cost_center" "regex" (str "^CC-[0-9]{3,6}$")

abbrev pub tagging_sensitive_data_requires_audit : PolicyRule
tagging_sensitive_data_requires_audit =
    record (error_rule "tagging-sensitive-data-requires-audit" "spec.extensions" "contains"
      (str "pgaudit")) {
        when = some (record {
          field = some "metadata.data_classification";
          operator = some "in";
          value = some (list_value ("confidential" ∷ "restricted" ∷ []));
        });
      }

abbrev pub platform_supported : PolicyRule
platform_supported =
    error_rule "prod-platform-supported" "spec.platform" "in" (list_value ("aws" ∷ "k3s" ∷ []))

abbrev pub multi_az_required : PolicyRule
multi_az_required = error_rule "prod-multi-az-required" "spec.multi_az" "equals" (boolean true)

abbrev pub backup_retention_min : PolicyRule
backup_retention_min =
    error_rule "prod-backup-retention-min" "spec.backup_retention_days" "gte" (count_value 30)

abbrev pub deletion_protection_required : PolicyRule
deletion_protection_required =
    error_rule "prod-deletion-protection-required" "spec.deletion_protection" "equals"
      (boolean true)

abbrev pub enhanced_monitoring_required : PolicyRule
enhanced_monitoring_required =
    error_rule "prod-enhanced-monitoring-required" "spec.enhanced_monitoring" "equals"
      (boolean true)

abbrev pub approval_required : PolicyRule
approval_required =
    error_rule "prod-approval-required" "spec.approvals" "min_length" (count_value 1)

abbrev pub slo_availability_floor : PolicyRule
slo_availability_floor =
    error_rule "prod-slo-availability-floor" "spec.slo.availability_target" "gte"
      (number (plus (record { num = 999; den = 1000 })))

abbrev pub audit_extension_required : PolicyRule
audit_extension_required =
    error_rule "prod-audit-extension-required" "spec.extensions" "contains" (str "pgaudit")

abbrev pub storage_minimum : PolicyRule
storage_minimum = error_rule "prod-storage-minimum" "spec.storage_gb" "gte" (count_value 100)

abbrev pub global_rules : List PolicyRule
global_rules =
    naming_convention_format ∷ naming_not_reserved ∷ tagging_cost_center_format
    ∷ tagging_sensitive_data_requires_audit ∷ []

abbrev pub prod_rules : List PolicyRule
prod_rules =
    platform_supported ∷ multi_az_required ∷ backup_retention_min ∷ deletion_protection_required
    ∷ enhanced_monitoring_required ∷ approval_required ∷ slo_availability_floor
    ∷ audit_extension_required ∷ storage_minimum ∷ []

-- What `rules_for` returns for production.
abbrev pub shipped_prod_rules : List PolicyRule
shipped_prod_rules = global_rules ++ prod_rules
