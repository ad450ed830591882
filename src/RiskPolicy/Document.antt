-- ===== src/RiskPolicy/Document.antt =====
-- The document that the rules of policy/engine.py read, with the values of the enumerations in it.
use db_platform.Base.{String, Option, none, some, List, [], ◌∷◌, ◌==◌, if◌then◌else◌}
use db_platform.Base.Value.{put_field}
use db_platform.Base.Frac.{whole}
use db_platform.Base.Number.{plus}
use db_platform.Base.Value.{
  Value, Items, Fields, boolean, number, str, items, mapping, nil, cons, end, field,
}
use db_platform.Change.{Change, DatabaseChangeOperation, DatabaseOperation, is_production}
use db_platform.Risk.{RiskLevel, RiskFactor, Label, value_of}
use db_platform.Risk.Engine.{ChangeRiskAssessment}

unfoldable pub level_name : RiskLevel → String
level_name RiskLevel.low = "low"
level_name RiskLevel.medium = "medium"
level_name RiskLevel.high = "high"
level_name RiskLevel.critical = "critical"

-- `RiskLevel(value)`, where `none` is its ValueError
unfoldable pub level_of : Value → Option RiskLevel
level_of (str s) =
    if s == "low"
    then some RiskLevel.low
    else if s == "medium"
    then some RiskLevel.medium
    else if s == "high"
    then some RiskLevel.high
    else if s == "critical"
    then some RiskLevel.critical
    else none
level_of _ = none

unfoldable pub label_name : Label → String
label_name Label.low = "LOW"
label_name Label.medium = "MEDIUM"
label_name Label.high = "HIGH"
label_name Label.critical = "CRITICAL"

unfoldable pub operation_name : DatabaseOperation → String
operation_name DatabaseOperation.create_table = "create_table"
operation_name DatabaseOperation.alter_table = "alter_table"
operation_name DatabaseOperation.drop_table = "drop_table"
operation_name DatabaseOperation.rename_table = "rename_table"
operation_name DatabaseOperation.add_column = "add_column"
operation_name DatabaseOperation.drop_column = "drop_column"
operation_name DatabaseOperation.alter_column_type = "alter_column_type"
operation_name DatabaseOperation.rename_column = "rename_column"
operation_name DatabaseOperation.set_column_default = "set_column_default"
operation_name DatabaseOperation.drop_column_default = "drop_column_default"
operation_name DatabaseOperation.set_column_not_null = "set_column_not_null"
operation_name DatabaseOperation.drop_column_not_null = "drop_column_not_null"
operation_name DatabaseOperation.create_index = "create_index"
operation_name DatabaseOperation.create_index_concurrently = "create_index_concurrently"
operation_name DatabaseOperation.drop_index = "drop_index"
operation_name DatabaseOperation.add_constraint = "add_constraint"
operation_name DatabaseOperation.drop_constraint = "drop_constraint"
operation_name DatabaseOperation.add_foreign_key = "add_foreign_key"
operation_name DatabaseOperation.add_primary_key = "add_primary_key"
operation_name DatabaseOperation.create_view = "create_view"
operation_name DatabaseOperation.drop_view = "drop_view"
operation_name DatabaseOperation.alter_view = "alter_view"
operation_name DatabaseOperation.create_function = "create_function"
operation_name DatabaseOperation.drop_function = "drop_function"
operation_name DatabaseOperation.alter_function = "alter_function"
operation_name DatabaseOperation.attach_partition = "attach_partition"
operation_name DatabaseOperation.detach_partition = "detach_partition"
operation_name DatabaseOperation.unknown = "unknown"

unfoldable pub factor_fields : List RiskFactor → Fields → Fields
unfolding put_field label_name value_of
factor_fields [] d = d
factor_fields (f ∷ fs) d = factor_fields fs (
    put_field (value_of f.factor_type)
      (mapping (
        field "score" (number (plus (whole f.score)))
          (field "label" (str (label_name f.label)) (field "weight" (number (plus f.weight)) end))))
      d)

unfoldable pub operation_items : List DatabaseChangeOperation → Items
unfolding operation_name
operation_items [] = nil
operation_items (op ∷ ops) = cons (str (operation_name op.operation)) (operation_items ops)

unfoldable pub document_of : Change → ChangeRiskAssessment → Value
unfolding is_production level_name factor_fields operation_items
document_of change assessment = mapping (
    field "environment" (str change.environment) (
      field "is_production" (boolean (is_production change)) (
        field "overall_score" (number (plus assessment.overall_score)) (
          field "risk_level" (str (level_name assessment.risk_level)) (
            field "confidence" (number (plus assessment.confidence)) (
              field "factors" (mapping (factor_fields assessment.factors end))
                (field "operation_types" (items (operation_items change.operations)) end)))))))
