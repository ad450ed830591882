-- ===== src/Request/Document.antt =====
-- `DatabaseRequest.model_dump` of a request: the document that the rules of policy/engine.py read,
-- with its fields in the order of the classes of config/models.py.
use db_platform.Base.{ℕ, String, List, [], ◌∷◌, none, some}
use db_platform.Base.Frac.{whole}
use db_platform.Base.Number.{plus}
use db_platform.Base.Value.{
  Value, Items, Fields, null, boolean, number, str, items, mapping, nil, cons, end, field,
}
use db_platform.Request.{
  Approval, SloTargets, KubernetesResources, RequestMetadata, DatabaseSpec, DatabaseRequest,
  environment_name, platform_name, classification_name,
}

abbrev natural : ℕ → Value
natural n = number (plus (whole n))

abbrev pub texts : List String → Items
texts [] = nil
texts (s ∷ more) = cons (str s) (texts more)

unfoldable pub tag_fields : List (String × String) → Fields
tag_fields [] = end
tag_fields ((key, value) ∷ more) = field key (str value) (tag_fields more)

unfoldable pub approval_items : List Approval → Items
approval_items [] = nil
approval_items (a ∷ more) =
    cons
      (mapping (
        field "approver" (str a.approver)
          (field "ticket" (str a.ticket) (field "approved_at" (str a.approved_at) end))))
      (approval_items more)

abbrev slo_fields : SloTargets → Fields
slo_fields slo = field "availability_target" (number (plus slo.availability_target)) (
    field "latency_p99_ms" (natural slo.latency_p99_ms) (
      field "backup_rpo_hours" (number (plus slo.backup_rpo_hours))
        (field "recovery_rto_hours" (number (plus slo.recovery_rto_hours)) end)))

abbrev resource_fields : KubernetesResources → Fields
resource_fields r = field "cpu_request" (str r.cpu_request) (
    field "memory_request" (str r.memory_request)
      (field "cpu_limit" (str r.cpu_limit) (field "memory_limit" (str r.memory_limit) end)))

unfoldable pub metadata_fields : RequestMetadata → Fields
unfolding environment_name classification_name
metadata_fields m = field "name" (str m.name) (
    field "environment" (str (environment_name m.environment)) (
      field "owner" (str m.owner) (
        field "cost_center" (str m.cost_center)
          (field "data_classification" (str (classification_name m.data_classification)) end))))

-- The fields from `multi_az` on.
abbrev operation_fields : DatabaseSpec → Fields
unfolding tag_fields approval_items
operation_fields s = field "multi_az" (boolean s.multi_az) (
    field "backup_retention_days" (natural s.backup_retention_days) (
      field "deletion_protection" (boolean s.deletion_protection) (
        field "enhanced_monitoring" (boolean s.enhanced_monitoring) (
          field "connection_limit" (natural s.connection_limit) (
            field "statement_timeout_ms" (natural s.statement_timeout_ms) (
              field "idle_in_transaction_timeout_ms" (natural s.idle_in_transaction_timeout_ms) (
                field "extensions" (items (texts s.extensions)) (
                  field "tags" (mapping (tag_fields s.tags)) (
                    field "approvals" (items (approval_items s.approvals))
                      (field "slo" (mapping (slo_fields s.slo)) end))))))))))

unfoldable pub spec_fields : DatabaseSpec → Fields
unfolding platform_name tag_fields approval_items
spec_fields s = field "platform" (str (platform_name s.platform)) (
    field "engine" (str "postgres") (
      field "engine_version" (str s.engine_version) (
        field "instance_class" (str s.instance_class) (
          field "storage_gb" (natural s.storage_gb) (
            field "namespace" (str s.namespace) (
              field "storage_class" (elim s.storage_class [ none ↦ null | some c ↦ str c ])
                (field "instances" (natural s.instances) (
                  field "resources" (mapping (resource_fields s.resources))
                    (operation_fields s)))))))))

unfoldable pub model_dump : DatabaseRequest → Fields
unfolding metadata_fields spec_fields
model_dump request = field "api_version" (str "dbre.platform/v1") (
    field "kind" (str "DatabaseRequest") (
      field "metadata" (mapping (metadata_fields request.metadata))
        (field "spec" (mapping (spec_fields request.spec)) end)))
